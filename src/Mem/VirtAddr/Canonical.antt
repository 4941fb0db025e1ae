-- ===== src/Mem/VirtAddr/Canonical.antt =====
-- Which words VirtAddr of kernel/src/mem/addr.rs accepts.
use aurora_os.Prelude.{
  ℕ, ◌+◌, ◌*◌, ◌-◌, ◌%◌, ◌/◌, ◌^◌, ◌≤◌, ◌<◌, ◌≡◌, ◌⊎◌, ◌∙◌, inl, inr, refl, arith, false, none,
  some, Bool-cases, ◌==◌, bit_or,
}
use aurora_os.Prelude.Bits.{bit_or-shifted}
use aurora_os.BitUtils.{IsUsize, get_bits}
use aurora_os.BitUtils.Fields.{get_bits_lem}
use aurora_os.Mem.VirtAddr.{new_truncate, try_new}

-- The upper 17 bits are all 0 or all 1.
abbrev pub IsCanonical : ℕ → Type 0
IsCanonical a = (a < 2 ^ 47) ⊎ ((2 ^ 64 ≤ a + 2 ^ 47) × (a < 2 ^ 64))

upper : (addr : ℕ) → IsUsize addr → get_bits addr 47 64 ≡ addr / 2 ^ 47
upper addr word =
    let b : get_bits addr 47 64 ≡ addr % 2 ^ 64 / 2 ^ 47 =
      get_bits_lem addr 47 64 (omega arith) (omega arith) word in
    omega (arith, b)

truncate_high :
    (addr : ℕ) → 2 ^ 47 ≤ addr → addr < 2 ^ 48 → new_truncate addr ≡ addr + 2 ^ 64 - 2 ^ 48
unfolding new_truncate
truncate_high addr lo hi =
    let b : get_bits addr 47 48 ≡ addr % 2 ^ 48 / 2 ^ 47 =
      get_bits_lem addr 47 48 (omega arith) (omega arith) (omega arith) in
    let one : (get_bits addr 47 48 == 0) ≡ false = ground (arith, b) in
    let set : bit_or addr (65535 * 2 ^ 48) ≡ addr + 65535 * 2 ^ 48 =
      bit_or-shifted 48 addr 65535 hi in
    let sum : addr + 65535 * 2 ^ 48 ≡ addr + 2 ^ 64 - 2 ^ 48 = omega arith in rw one (set ∙ sum)

-- Of a word, VirtAddr::try_new makes an address whose upper 17 bits are all alike and whose lower
-- 48 bits are those of the word, or it answers with none, and then the word is at least 2 ^ 48 and
-- below 2 ^ 64 - 2 ^ 47.
pub try_new-IsCanonical :
    (addr : ℕ)
    → IsUsize addr
    → ((v : ℕ) × (try_new addr ≡ some v) × IsCanonical v × (v % 2 ^ 48 ≡ addr % 2 ^ 48))
      ⊎ ((try_new addr ≡ none) × (2 ^ 48 ≤ addr) × (addr + 2 ^ 47 < 2 ^ 64))
unfolding try_new
try_new-IsCanonical addr word =
    let u = upper addr word in
    elim (Bool-cases (get_bits addr 47 64 == 0)) [
      | inl z ↦
          let lt : addr < 2 ^ 47 = ground (arith, u) in
          inl (addr, rw (z, try_new) refl, inl lt, refl)
      | inr z ↦ elim (Bool-cases (get_bits addr 47 64 == 1)) [
        | inl o ↦
            let lo : 2 ^ 47 ≤ addr = ground (arith, u) in
            let hi : addr < 2 ^ 48 = ground (arith, u) in
            let t = truncate_high addr lo hi in
            inl (
              new_truncate addr,
              rw (z, o, try_new) refl,
              inr (omega (arith, t), omega (arith, t)),
              omega (arith, t),
            )
        | inr o ↦ elim (Bool-cases (get_bits addr 47 64 == 131071)) [
          | inl f ↦
              let lo : 2 ^ 64 ≤ addr + 2 ^ 47 = ground (arith, u) in
              inl (addr, rw (z, o, f, try_new) refl, inr (lo, word), refl)
          | inr f ↦
              let lo : 2 ^ 48 ≤ addr = ground (arith, u) in
              let hi : addr + 2 ^ 47 < 2 ^ 64 = ground (arith, u) in
              inr (rw (z, o, f, try_new) refl, lo, hi)
        ]
      ]
    ]
