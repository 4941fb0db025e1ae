-- ===== src/Aser/CloneCaps.antt =====
-- clone_caps_to_cspace of userland/aser/src/lib.rs: a message's capabilities are cloned into
-- another capability space, and the ids in its table replaced.
use aurora_os.Prelude.{
  ℕ, zero, suc, ◌+◌, ◌-◌, ◌*◌, ◌%◌, ◌^◌, ◌<◌, ◌≡◌, refl, sym, ap, ◌∙◌, arith, All, List, [], ◌∷◌,
  ◌++◌, none, some, length, length-append, append_assoc,
}
use aurora_os.BitUtils.{usize_mod}
use aurora_os.Cap.CapId
use aurora_os.Aser.Result.{Result, ok, err, panic, out_of_fuel, invalid_capability_id}
use aurora_os.Aser.Bytes.{le_bytes, get_usize, set_usize}
use aurora_os.Aser.Bytes.Laws.{
  length-le_bytes, from_le-le_bytes, set_usize-append, get_usize-append, get_usize-behind,
}
use aurora_os.Aser.Ser.{unwrap}
use aurora_os.Aser.Ser.Buffer.{words}

-- The system call cap_clone with the arguments of a message: all flags, not weak, not removed. It
-- acts on the state of the kernel.
pub record CapClone (W : Type 0) : Type 0 where
  pub cap_clone_inner : ℕ → W → Result ℕ × W

-- What the loop ends in: its result, the data as it is then, and the state of the kernel.
abbrev pub Cloned : Type 0 → Type 0
Cloned W = Result (Unit {0}) × List ℕ × W

-- A message with the capabilities `cs`, behind the bytes `p`.
abbrev message : List ℕ → List ℕ → List ℕ → List ℕ
message p cs tail = p ++ (words cs ++ tail)

message-cons :
    (p cs tail : List ℕ) (c : ℕ) → message p (c ∷ cs) tail ≡ message (p ++ le_bytes 8 c) cs tail
unfolding words
message-cons p cs tail c =
    ap (λ (l : List ℕ). p ++ l) (append_assoc (le_bytes 8 c) (words cs) tail)
    ∙ sym (append_assoc p (le_bytes 8 c) (words cs ++ tail))

module _ {W : Type 0} where
  -- The id of the clone is written, and the loop goes on.
  abbrev pub stored : (List ℕ → W → Cloned W) → List ℕ → W → Result (List ℕ) → Cloned W
  stored rest bytes w (ok bytes') = rest bytes' w
  stored rest bytes w (err e) = (err e, bytes, w)
  stored rest bytes w panic = (panic, bytes, w)
  stored rest bytes w out_of_fuel = (out_of_fuel, bytes, w)

  abbrev pub then_set : (List ℕ → W → Cloned W) → ℕ → List ℕ → Result ℕ × W → Cloned W
  then_set rest i bytes (ok new, w) = stored rest bytes w (unwrap (set_usize bytes i new))
  then_set rest i bytes (err e, w) = (err e, bytes, w)
  then_set rest i bytes (panic, w) = (panic, bytes, w)
  then_set rest i bytes (out_of_fuel, w) = (out_of_fuel, bytes, w)

  abbrev pub then_clone : (ℕ → Cloned W) → List ℕ → W → Result ℕ → Cloned W
  then_clone rest bytes w (ok cap) = rest cap
  then_clone rest bytes w (err e) = (err e, bytes, w)
  then_clone rest bytes w panic = (panic, bytes, w)
  then_clone rest bytes w out_of_fuel = (out_of_fuel, bytes, w)

module _ {W : Type 0} ⦃sys : CapClone W⦄ where
  -- The id of the clone of one capability.
  unfoldable pub new_cap_id : ℕ → W → Result ℕ × W
  new_cap_id cap w = elim (CapId.try_from cap) [
    | none ↦ (err invalid_capability_id, w)
    | some cap_id ↦ sys.cap_clone_inner cap_id w
  ]

  -- The loop of clone_caps_to_cspace: `n` entries from the place `i`.
  unfoldable pub clone_caps_from : ℕ → ℕ → List ℕ → W → Cloned W
  clone_caps_from zero i bytes w = (ok tt, bytes, w)
  clone_caps_from (suc n) i bytes w =
      then_clone (λ cap. then_set (clone_caps_from n (suc i)) i bytes (new_cap_id cap w)) bytes w
        (get_usize bytes i)

  unfoldable pub clone_caps_to_cspace : List ℕ → W → Cloned W
  clone_caps_to_cspace bytes w =
      then_clone (λ cap_count. clone_caps_from ((cap_count + 1) % usize_mod - 1) 1 bytes w) bytes w
        (get_usize bytes 0)

  -- The capabilities, with the id of its clone in the place of each up to the first failure.
  abbrev pub clone_rest : ℕ → List ℕ → Result ℕ × W → (W → Cloned W) → Cloned W
  clone_rest c cs (ok new, w) rest = let (r, news, w') = rest w in (r, new ∷ news, w')
  clone_rest c cs (err e, w) rest = (err e, c ∷ cs, w)
  clone_rest c cs (panic, w) rest = (panic, c ∷ cs, w)
  clone_rest c cs (out_of_fuel, w) rest = (out_of_fuel, c ∷ cs, w)

  unfoldable pub clone_all : List ℕ → W → Cloned W
  clone_all [] w = (ok tt, [], w)
  clone_all (c ∷ cs) w = clone_rest c cs (new_cap_id c w) (clone_all cs)

  abbrev pub in_message : List ℕ → List ℕ → Cloned W → Cloned W
  in_message p tail (r, cs, w) = (r, p ++ (words cs ++ tail), w)

  clone_caps_from-message :
      (cs p tail : List ℕ) (i : ℕ) (w : W)
      → (i + length cs) * 8 < usize_mod
      → length p ≡ i * 8
      → All (λ c. c < 256 ^ 8) cs
      → clone_caps_from (length cs) i (message p cs tail) w ≡ in_message p tail (clone_all cs w)
  unfolding clone_caps_from clone_all words
  clone_caps_from-message [] p tail i w small e h = refl
  clone_caps_from-message (c ∷ cs) p tail i w small e (hc, hs) =
      rw
        (
          append_assoc (le_bytes 8 c) (words cs) tail,
          get_usize-behind p (le_bytes 8 c) (words cs ++ tail) i (omega (arith, small)) e
              (length-le_bytes 8 c),
          from_le-le_bytes 8 c hc,
        )
        (after (new_cap_id c w) (λ new w'.
          clone_caps_from-message cs (p ++ le_bytes 8 new) tail (suc i) w' (omega (arith, small))
            (omega (arith, e, length-append p (le_bytes 8 new), length-le_bytes 8 new)) hs))
    where
      after :
          (r : Result ℕ × W)
          → ((new : ℕ) (w' : W)
              → clone_caps_from (length cs) (suc i) (message (p ++ le_bytes 8 new) cs tail) w'
                ≡ in_message (p ++ le_bytes 8 new) tail (clone_all cs w'))
          → then_set
              (clone_caps_from (length cs) (suc i))
              i
              (p ++ (le_bytes 8 c ++ (words cs ++ tail)))
              r
            ≡ in_message p tail (clone_rest c cs r (clone_all cs))
      after (ok new, w') others =
          rw
            (
              set_usize-append p (le_bytes 8 c) (words cs ++ tail) i new (omega (arith, small)) e
                  (length-le_bytes 8 c),
              ← append_assoc p (le_bytes 8 new) (words cs ++ tail),
            )
            (others new w'
              ∙ ap (λ (l : List ℕ). ((clone_all cs w').0, l, (clone_all cs w').2))
                  (sym (message-cons p (clone_all cs w').1 tail new)))
      after (err e, w') others =
          ap (λ (l : List ℕ). (err e, p ++ l, w'))
            (sym (append_assoc (le_bytes 8 c) (words cs) tail))
      after (panic, w') others =
          ap (λ (l : List ℕ). (panic, p ++ l, w'))
            (sym (append_assoc (le_bytes 8 c) (words cs) tail))
      after (out_of_fuel, w') others =
          ap (λ (l : List ℕ). (out_of_fuel, p ++ l, w'))
            (sym (append_assoc (le_bytes 8 c) (words cs) tail))

  -- On a message with fewer than 2 ^ 60 capabilities, all words, clone_caps_to_cspace clones them
  -- in their order, each in the state of the kernel that the clones before it leave, puts in the
  -- place of each id the id of its clone and leaves the rest of the message as it is; it ends with
  -- the first error of an id that is none or of a clone that fails, and then the ids from there on
  -- stay.
  pub clone_caps_to_cspace-message :
      (cs tail : List ℕ) (w : W)
      → length cs < 2 ^ 60
      → All (λ c. c < 256 ^ 8) cs
      → clone_caps_to_cspace (le_bytes 8 (length cs) ++ (words cs ++ tail)) w
        ≡ in_message (le_bytes 8 (length cs)) tail (clone_all cs w)
  unfolding clone_caps_to_cspace
  clone_caps_to_cspace-message cs tail w small h =
      let count : (length cs + 1) % usize_mod - 1 ≡ length cs = omega (arith, small) in
      rw
        (
          get_usize-append (le_bytes 8 (length cs)) (words cs ++ tail)
              (length-le_bytes 8 (length cs)),
          from_le-le_bytes 8 (length cs) (omega (arith, small)),
          count,
        )
        (clone_caps_from-message cs (le_bytes 8 (length cs)) tail 1 w (omega (arith, small))
          (length-le_bytes 8 (length cs)) h)
