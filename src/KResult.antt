-- ===== src/KResult.antt =====
-- userland/sys/src/syserr.rs: the error codes of the kernel and the result type of its functions.
-- A panic of the kernel is a third outcome.
use aurora_os.Prelude.{◌≡◌, ◌⊎◌, inl, inr, refl, Option, none, some, Bool, true, false}

pub data SysErr : Type 0 where
  ok_unreach ok_timeout out_of_mem invl_id invl_perm invl_weak invl_args invl_op : SysErr
  invl_mem_zone invl_virt_addr invl_phys_addr invl_align overflow out_of_capacity : SysErr
  invl_bytecode obscured invl_syscall invl_buffer unknown : SysErr

pub data KResult {ℓ} (A : Type ℓ) : Type ℓ where
  ok : A → KResult A
  err : SysErr → KResult A
  panic : KResult A

infixl 5 ◌>>=◌ ◌>>◌
abbrev pub ◌>>=◌ {ℓ κ} : {A : Type ℓ} {B : Type κ} → KResult A → (A → KResult B) → KResult B
ok a >>= f = f a
err e >>= f = err e
panic >>= f = panic

abbrev pub ◌>>◌ {ℓ κ} : {A : Type ℓ} {B : Type κ} → KResult A → KResult B → KResult B
m >> k = m >>= λ _. k

-- `o.ok_or(e)?`
abbrev pub ok_or {ℓ} : {A : Type ℓ} → Option A → SysErr → KResult A
ok_or none e = err e
ok_or (some a) e = ok a

-- `if !b { return Err(e) }`
abbrev pub guard : Bool → SysErr → KResult (Unit {0})
guard true e = ok tt
guard false e = err e

-- To split on a computed result and keep the equation.
pub KResult-cases {ℓ} :
    {A : Type ℓ} (r : KResult A)
    → ((a : A) × (r ≡ ok a)) ⊎ ((e : SysErr) × (r ≡ err e)) ⊎ (r ≡ panic)
KResult-cases (ok a) = inl (a, refl)
KResult-cases (err e) = inr (inl (e, refl))
KResult-cases panic = inr (inr refl)
