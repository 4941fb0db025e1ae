-- ===== src/Cap/CapId/Layout.antt =====
-- The fields of a capability id.
use aurora_os.Prelude.{
  ℕ, ◌+◌, ◌*◌, ◌/◌, ◌%◌, ◌^◌, ◌≤◌, ◌<◌, ◌≡◌, refl, ◌∙◌, arith, Bool, true, false, some, ◌==◌,
  bit_or,
}
use aurora_os.Prelude.Bits.{bit_or-shifted, bit_and-low_mask}
use aurora_os.BitUtils.{get_bits, IsUsize}
use aurora_os.BitUtils.Fields.{get_bits_lem}
use aurora_os.Cap.Flags.{Bitflags, IsCapFlags}
use aurora_os.Cap.CapId.{
  CapType, thread, as_usize, from, bool_bit, new, null_flags, try_from, is_weak, cap_type, flags,
}

pub as_usize_range : (t : CapType) → (1 ≤ as_usize t) × (as_usize t < 20)
unfolding as_usize
as_usize_range thread = omega arith
as_usize_range _ = omega arith

-- A discriminant reads back as its type.
pub from-as_usize : (t : CapType) → from (as_usize t) ≡ some t
unfolding from as_usize
from-as_usize thread = refl
from-as_usize _ = refl

bool_bit_range : (w : Bool) → bool_bit w < 2
bool_bit_range true = omega arith
bool_bit_range false = omega arith

flags_and_weakness :
    (fl : ℕ) (w : Bool)
    → IsCapFlags fl
    → bit_or fl (bool_bit w * 2 ^ 4 % 2 ^ 64) ≡ fl + bool_bit w * 16
flags_and_weakness fl w h =
    let fits : bool_bit w * 2 ^ 4 % 2 ^ 64 ≡ bool_bit w * 2 ^ 4 = omega (arith, bool_bit_range w) in
    rw fits (bit_or-shifted 4 fl (bool_bit w) h)

-- The word that `new` builds, in arithmetic: the unique number loses what does not fit in 54 bits.
pub new_lem :
    (t : CapType) (fl : ℕ) (w : Bool) (base : ℕ)
    → IsCapFlags fl
    → new t fl w base ≡ fl + bool_bit w * 16 + as_usize t * 32 + base % 2 ^ 54 * 1024
unfolding new
new_lem t fl w base h =
    let type_fits : as_usize t * 2 ^ 5 % 2 ^ 64 ≡ as_usize t * 2 ^ 5 =
      omega (arith, as_usize_range t) in
    let base_cut : base * 2 ^ 10 % 2 ^ 64 ≡ base % 2 ^ 54 * 2 ^ 10 = omega arith in
    let low = fl + bool_bit w * 16 in
    rw
      (
        flags_and_weakness fl w h,
        type_fits,
        base_cut,
        bit_or-shifted 5 low (as_usize t) (omega (arith, bool_bit_range w)),
      )
      (bit_or-shifted 10 (low + as_usize t * 32) (base % 2 ^ 54)
        (omega (arith, bool_bit_range w, as_usize_range t)))

pub null_flags_lem : (fl : ℕ) (w : Bool) → IsCapFlags fl → null_flags fl w ≡ fl + bool_bit w * 16
unfolding null_flags
null_flags_lem fl w h = flags_and_weakness fl w h

pub new-IsUsize :
    (t : CapType) (fl : ℕ) (w : Bool) (base : ℕ) → IsCapFlags fl → IsUsize (new t fl w base)
new-IsUsize t fl w base h = omega (arith, new_lem t fl w base h, bool_bit_range w, as_usize_range t)

type_field :
    (t : CapType) (fl : ℕ) (w : Bool) (base : ℕ)
    → IsCapFlags fl
    → get_bits (new t fl w base) 5 10 ≡ as_usize t
type_field t fl w base h =
    get_bits_lem _ 5 10 (omega arith) (omega arith) (new-IsUsize t fl w base h)
    ∙ omega (arith, new_lem t fl w base h, bool_bit_range w, as_usize_range t)

-- An id that `new` builds is accepted by `try_from`, and its type is the one it was built with.
pub cap_type-new :
    (t : CapType) (fl : ℕ) (w : Bool) (base : ℕ)
    → IsCapFlags fl
    → (cap_type (new t fl w base) ≡ some t) × (try_from (new t fl w base) ≡ some (new t fl w base))
unfolding cap_type try_from
cap_type-new t fl w base h = rw (type_field t fl w base h, from-as_usize t) (refl, refl)

weak_bit : (w : Bool) → (bool_bit w == 1) ≡ w
weak_bit true = refl
weak_bit false = refl

weak_field :
    (id low w high : ℕ) → id ≡ low + w * 16 + high * 32 → low < 16 → w < 2 → id / 16 % 2 ≡ w
weak_field id low w high e h hw = omega arith

-- The weakness reads back from an id that `new` builds.
pub is_weak-new :
    (t : CapType) (fl : ℕ) (w : Bool) (base : ℕ) → IsCapFlags fl → is_weak (new t fl w base) ≡ w
unfolding is_weak
is_weak-new t fl w base h =
    let field : get_bits (new t fl w base) 4 5 ≡ bool_bit w =
      get_bits_lem _ 4 5 (omega arith) (omega arith) (new-IsUsize t fl w base h)
      ∙ omega (arith, new_lem t fl w base h, bool_bit_range w, as_usize_range t) in
    rw field (weak_bit w)

pub is_weak-null_flags : (fl : ℕ) (w : Bool) → IsCapFlags fl → is_weak (null_flags fl w) ≡ w
unfolding is_weak
is_weak-null_flags fl w h =
    let field : get_bits (null_flags fl w) 4 5 ≡ bool_bit w =
      get_bits_lem _ 4 5 (omega arith) (omega arith)
        (omega (arith, null_flags_lem fl w h, bool_bit_range w))
      ∙ omega (arith, null_flags_lem fl w h, bool_bit_range w) in
    rw field (weak_bit w)

module _ ⦃bf : Bitflags⦄ where
  flags-mod : (id : ℕ) → flags id ≡ id % 16
  unfolding flags
  flags-mod id = bf.from_bits_truncate_lem 15 id ∙ bit_and-low_mask 4 id 15 refl

  -- The flags of any id are flags of `CapFlags`.
  pub flags-IsCapFlags : (id : ℕ) → IsCapFlags (flags id)
  flags-IsCapFlags id = omega (arith, flags-mod id)

  pub flags-new :
      (t : CapType) (fl : ℕ) (w : Bool) (base : ℕ) → IsCapFlags fl → flags (new t fl w base) ≡ fl
  flags-new t fl w base h = omega (arith, flags-mod (new t fl w base), new_lem t fl w base h)

  pub flags-null_flags : (fl : ℕ) (w : Bool) → IsCapFlags fl → flags (null_flags fl w) ≡ fl
  flags-null_flags fl w h = omega (arith, flags-mod (null_flags fl w), null_flags_lem fl w h)

  -- An id that new builds from a type, flags and a weakness gives them back by cap_type, flags and
  -- is_weak, and try_from accepts it.
  pub new_roundtrip :
      (t : CapType) (fl : ℕ) (w : Bool) (base : ℕ)
      → IsCapFlags fl
      → (cap_type (new t fl w base) ≡ some t)
        × (try_from (new t fl w base) ≡ some (new t fl w base))
        × (flags (new t fl w base) ≡ fl)
        × (is_weak (new t fl w base) ≡ w)
  new_roundtrip t fl w base h =
      let (ty, valid) = cap_type-new t fl w base h in
      (ty, valid, flags-new t fl w base h, is_weak-new t fl w base h)

-- Two ids that new builds from numbers below 2 ^ 54 and flags are equal only if the numbers are.
pub new-base_injective :
    (t t' : CapType) (fl fl' : ℕ) (w w' : Bool) (base base' : ℕ)
    → IsCapFlags fl
    → IsCapFlags fl'
    → base < 2 ^ 54
    → base' < 2 ^ 54
    → new t fl w base ≡ new t' fl' w' base'
    → base ≡ base'
new-base_injective t t' fl fl' w w' base base' h h' lt lt' e = omega (
  arith,
  new_lem t fl w base h,
  new_lem t' fl' w' base' h',
  bool_bit_range w,
  bool_bit_range w',
  as_usize_range t,
  as_usize_range t',
)
