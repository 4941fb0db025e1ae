-- ===== src/AddrSpace/Action.antt =====
-- The state of an address space manager (userland/aurora_core/src/allocator/addr_space.rs) and
-- its actions. What is written before an error stays written.
use aurora_os.Prelude.{ℕ, ◌≡◌, subst}
use aurora_os.AddrSpace.{SysResult, AddrSpaceError, Outcome, ok, err, panic}

-- The system calls on the capabilities and the address space of the manager, on the state `W` of
-- the kernel. `settled` is what the threads do that hold a number of transient regions, until
-- all of these are unmapped.
pub record AddressSpaceCalls (W : Type 0) : Type 0 where
  pub memory_size : ℕ → W → SysResult ℕ
  pub phys_mem_size : ℕ → W → SysResult ℕ
  pub event_pool_size : ℕ → ℕ
  pub new_memory : ℕ → W → SysResult ℕ × W
  pub map_memory : ℕ → ℕ → ℕ → ℕ → W → SysResult (Unit {0}) × W
  pub map_event_pool : ℕ → ℕ → W → SysResult ℕ × W
  pub map_phys_mem : ℕ → ℕ → ℕ → W → SysResult ℕ × W
  pub clone_memory : ℕ → W → SysResult ℕ × W
  pub unmap : ℕ → W → SysResult (Unit {0}) × W
  pub settled : ℕ → W → W

-- `T` stores the regions.
pub record AddrSpaceManager (T W : Type 0) : Type 0 where
  pub memory_regions : T
  pub transient_region_count : ℕ
  pub kernel : W

abbrev pub Action : Type 0 → Type 0 → Type 0 → Type 0
Action T W A = AddrSpaceManager T W → Outcome A × AddrSpaceManager T W

module _ {T W A : Type 0} where
  abbrev pub pure : A → Action T W A
  pure a s = (ok a, s)

  abbrev pub fail : AddrSpaceError → Action T W A
  fail e s = (err e, s)

  abbrev pub answer : Outcome A → Action T W A
  answer r s = (r, s)

  -- A call that only reads.
  abbrev pub asks : (AddrSpaceManager T W → Outcome A) → Action T W A
  asks f s = (f s, s)

  -- A system call, whose result is turned into one of the manager.
  abbrev pub call : {B : Type 0} → (SysResult B → Outcome A) → (W → SysResult B × W) → Action T W A
  call f m s = let (r, w) = m s.kernel in (f r, record s { kernel = w })

  -- A change of the list of regions; an error leaves it as it is.
  abbrev pub stored : AddrSpaceManager T W → Outcome (A × T) → Outcome A × AddrSpaceManager T W
  stored s (ok (a, t)) = (ok a, record s { memory_regions = t })
  stored s (err e) = (err e, s)
  stored s panic = (panic, s)

  abbrev pub on_regions : (T → Outcome (A × T)) → Action T W A
  on_regions f s = stored s (f s.memory_regions)

  abbrev pub raised :
      AddrSpaceError → Outcome (Unit {0}) × AddrSpaceManager T W → Outcome A × AddrSpaceManager T W
  raised e (ok _, s) = (err e, s)
  raised e (err e', s) = (err e', s)
  raised e (panic, s) = (panic, s)

  -- The second action runs on the error of the first, and gives the error to raise.
  abbrev pub caught :
      Action T W (Unit {0}) → Outcome A × AddrSpaceManager T W → Outcome A × AddrSpaceManager T W
  caught m (ok a, s) = (ok a, s)
  caught m (err e, s) = raised e (m s)
  caught m (panic, s) = (panic, s)

  abbrev pub on_error : Action T W A → Action T W (Unit {0}) → Action T W A
  on_error m undo s = caught undo (m s)

module _ {T W : Type 0} where
  abbrev pub next :
      {A B : Type 0}
      → (A → Action T W B)
      → Outcome A × AddrSpaceManager T W
      → Outcome B × AddrSpaceManager T W
  next f (ok a, s) = f a s
  next f (err e, s) = (err e, s)
  next f (panic, s) = (panic, s)

  infixl 5 ◌>>=◌ ◌>>◌
  abbrev pub ◌>>=◌ : {A B : Type 0} → Action T W A → (A → Action T W B) → Action T W B
  ◌>>=◌ m f s = next f (m s)

  abbrev pub ◌>>◌ : {A B : Type 0} → Action T W A → Action T W B → Action T W B
  m >> k = m >>= λ _. k

  -- Where an action ends in a result that satisfies `Q`, or in an error with a state for `R`, and
  -- never panics.
  abbrev pub Ends :
      {A : Type 0}
      → (A → AddrSpaceManager T W → Type 0)
      → (AddrSpaceManager T W → Type 0)
      → Outcome A × AddrSpaceManager T W
      → Type 0
  Ends Q R (ok a, s) = Q a s
  Ends Q R (err e, s) = R s
  Ends Q R (panic, s) = ⊥

  pub Ends-bind :
      {A B : Type 0} (Q : A → AddrSpaceManager T W → Type 0)
      (Q' : B → AddrSpaceManager T W → Type 0) (R : AddrSpaceManager T W → Type 0)
      (r : Outcome A × AddrSpaceManager T W) (f : A → Action T W B)
      → Ends Q R r
      → ((a : A) (s : AddrSpaceManager T W) → Q a s → Ends Q' R (f a s))
      → Ends Q' R (next f r)
  Ends-bind Q Q' R (ok a, s) f h k = k a s h
  Ends-bind Q Q' R (err e, s) f h k = h
  Ends-bind Q Q' R (panic, s) f h k = h

  pub Ends-map :
      {A : Type 0} (Q Q' : A → AddrSpaceManager T W → Type 0) (R : AddrSpaceManager T W → Type 0)
      (r : Outcome A × AddrSpaceManager T W)
      → Ends Q R r
      → ((a : A) (s : AddrSpaceManager T W) → Q a s → Q' a s)
      → Ends Q' R r
  Ends-map Q Q' R (ok a, s) h k = k a s h
  Ends-map Q Q' R (err e, s) h k = h
  Ends-map Q Q' R (panic, s) h k = h

  pub Ends-ok :
      {A : Type 0} (Q : A → AddrSpaceManager T W → Type 0) (R : AddrSpaceManager T W → Type 0)
      (r : Outcome A × AddrSpaceManager T W) (a : A)
      → Ends Q R r
      → r.0 ≡ ok a
      → Q a r.1
  Ends-ok Q R (ok b, s) a h e = let same : b ≡ a = cc in subst (λ c. Q c s) same h
  Ends-ok Q R (err x, s) a h e = cc
  Ends-ok Q R (panic, s) a h e = cc
