-- ===== src/Cap/Flags.antt =====
-- The flag sets of userland/sys/src/cap.rs and flags.rs. The operations that the `bitflags` crate
-- generates for such a set are an interface; a set is the word of its bits.
use aurora_os.Prelude.{ℕ, ◌<◌, ◌≡◌, ◌↔◌, refl, Bool, true, bit_and, ◌==◌, ==_iff}

pub record Bitflags : Type 0 where
  -- `a.contains(b)`
  pub contains : ℕ → ℕ → Bool
  -- `a & b`
  pub intersection : ℕ → ℕ → ℕ
  -- `from_bits_truncate(n)`, for the set whose flags together are `all`
  pub from_bits_truncate : ℕ → ℕ → ℕ
  pub contains_iff : (a b : ℕ) → (contains a b ≡ true) ↔ (bit_and a b ≡ b)
  pub intersection_lem : (a b : ℕ) → intersection a b ≡ bit_and a b
  pub from_bits_truncate_lem : (all n : ℕ) → from_bits_truncate all n ≡ bit_and n all

-- The operations on words that the documentation of the crate describes.
abbrev pub word_flags : Bitflags
word_flags = record {
  contains = λ a b. bit_and a b == b;
  intersection = bit_and;
  from_bits_truncate = λ all n. bit_and n all;
  contains_iff = λ a b. ==_iff (bit_and a b) b;
  intersection_lem = λ a b. refl;
  from_bits_truncate_lem = λ all n. refl;
}

-- CapFlags
abbrev pub read : ℕ
read = 1

abbrev pub prod : ℕ
prod = 2

abbrev pub write : ℕ
write = 4

abbrev pub upgrade : ℕ
upgrade = 8

abbrev pub all_flags : ℕ
all_flags = 15

-- A value of `CapFlags` has only the bits of the four flags.
abbrev pub IsCapFlags : ℕ → Type 0
IsCapFlags flags = flags < 16
