-- ===== src/Aser/Bytes/Laws.antt =====
-- Round trips of the bytes of numbers, and writes behind a prefix.
use native.Mathlib.Nat.{pow-suc}
use aurora_os.Prelude.{
  ℕ, zero, suc, ◌+◌, ◌*◌, ◌/◌, ◌%◌, ◌^◌, ◌<◌, ◌≡◌, refl, ap, subst, arith, List, [], ◌∷◌, ◌++◌, leb,
  length, take, drop, length-append, true, zero-add, suc-add, take-append_length,
  drop-append_length, leb_iff,
}
use aurora_os.BitUtils.{usize_mod}
use aurora_os.Aser.Result.{ok}
use aurora_os.Aser.Bytes.{le_bytes, from_le, get_usize, set_usize}

pub length-le_bytes : (k n : ℕ) → length (le_bytes k n) ≡ k
unfolding le_bytes
length-le_bytes zero n = refl
length-le_bytes (suc k) n = omega (arith, length-le_bytes k (n / 256))

pub from_le-le_bytes : (k n : ℕ) → n < 256 ^ k → from_le (le_bytes k n) ≡ n
unfolding from_le le_bytes
from_le-le_bytes zero n lt = omega arith
from_le-le_bytes (suc k) n lt =
    omega (arith, from_le-le_bytes k (n / 256) (omega (arith, pow-suc 256 k)))

drop-append : (p q : List ℕ) (k : ℕ) → drop (length p + k) (p ++ q) ≡ drop k q
drop-append [] q k = rw (zero-add k)
drop-append (x ∷ p) q k = rw (suc-add (length p) k) (drop-append p q k)

module _ (n : ℕ) (old q : List ℕ) (e : length old ≡ n) where
  pub take-front : take n (old ++ q) ≡ old
  take-front = subst (λ (k : ℕ). take k (old ++ q) ≡ old) e (take-append_length old q)

  pub drop-front : drop n (old ++ q) ≡ q
  drop-front = subst (λ (k : ℕ). drop k (old ++ q) ≡ q) e (drop-append_length old q)

-- A write into the place `old`, behind the prefix `p`.
pub set_usize-append :
    (p old q : List ℕ) (i num : ℕ)
    → i * 8 < usize_mod
    → length p ≡ i * 8
    → length old ≡ 8
    → set_usize (p ++ (old ++ q)) i num ≡ ok (p ++ (le_bytes 8 num ++ q))
unfolding set_usize
set_usize-append p old q i num small e e' =
    let whole : i * 8 % usize_mod ≡ i * 8 = omega arith in
    let len : length (p ++ (old ++ q)) ≡ length p + (8 + length q) =
      omega (arith, length-append p (old ++ q), length-append old q, e') in
    let fits : leb (i * 8 + 8) (length (p ++ (old ++ q))) ≡ true =
      (leb_iff _ _).1 (omega (arith, len, e)) in
    rw (whole, fits, ← e)
      (rw (take-append_length p (old ++ q), drop-append p (old ++ q) 8, drop-front 8 old q e'))

pub get_usize-append : (old q : List ℕ) → length old ≡ 8 → get_usize (old ++ q) 0 ≡ ok (from_le old)
unfolding get_usize
get_usize-append old q e =
    let fits : leb 8 (length (old ++ q)) ≡ true =
      (leb_iff _ _).1 (omega (arith, length-append old q, e)) in
    rw fits (ap (λ (t : List ℕ). ok (from_le t)) (take-front 8 old q e))

-- A read of the place `old` behind the prefix `p`.
pub get_usize-behind :
    (p old q : List ℕ) (i : ℕ)
    → i * 8 < usize_mod
    → length p ≡ i * 8
    → length old ≡ 8
    → get_usize (p ++ (old ++ q)) i ≡ ok (from_le old)
unfolding get_usize
get_usize-behind p old q i small e e' =
    let whole : i * 8 % usize_mod ≡ i * 8 = omega arith in
    let len : length (p ++ (old ++ q)) ≡ length p + (8 + length q) =
      omega (arith, length-append p (old ++ q), length-append old q, e') in
    let fits : leb (i * 8 + 8) (length (p ++ (old ++ q))) ≡ true =
      (leb_iff _ _).1 (omega (arith, len, e)) in
    rw (whole, fits, ← e)
      (rw (drop-append_length p (old ++ q))
        (ap (λ (t : List ℕ). ok (from_le t)) (take-front 8 old q e')))
