-- ===== src/Aser/De/Reads.antt =====
-- Reads of userland/aser/src/de.rs at the front of what the serializer wrote.
use mathlib.Core.Bool.{false≢true}
use aurora_os.Prelude.{
  ℕ, ◌+◌, ◌==◌, ◌^◌, ◌<◌, ◌≡◌, refl, ap, ◌∙◌, arith, Bool, true, false, List, [], ◌∷◌, ◌++◌, length,
  leb, leb_iff, if_cases, length-append, append_assoc,
}
use aurora_os.Aser.Result.{ok}
use aurora_os.Aser.Bytes.{le_bytes}
use aurora_os.Aser.Bytes.Laws.{length-le_bytes, from_le-le_bytes, take-front, drop-front}
use aurora_os.Aser.DataType
use aurora_os.Aser.DataType.{DataType, byte}
use aurora_os.Aser.Data
use aurora_os.Aser.Data.{Data, Integer, Float, Items, Pairs, Fields, serialize_enum_variant}
use aurora_os.Aser.Ser.Emit.{integer_type, sized, emit, emit_items, emit_pairs, emit_fields, caps}
use aurora_os.Aser.De.Input.{
  step, Reader, ◌>>=◌, and_then, take_bytes, take_le, take_data_type, take_u8, peek_data_type,
  check_if_finished,
}

-- A read that succeeds, before the rest of the reader.
pub reads-then {ℓ κ} :
    {A : Type ℓ} {B : Type κ} (r : Reader A) (k : A → Reader B) (s : List ℕ) {s' : List ℕ} {a : A}
    → r s ≡ step s' (ok a)
    → (r >>= k) s ≡ k a s'
reads-then r k s h = ap (λ t. and_then t k) h

pub take_bytes-append :
    (k : ℕ) (b rest : List ℕ) → length b ≡ k → take_bytes k (b ++ rest) ≡ step rest (ok b)
unfolding take_bytes
take_bytes-append k b rest e =
    let fits : leb k (length (b ++ rest)) ≡ true =
      (leb_iff _ _).1 (omega (arith, length-append b rest, e)) in
    rw (fits, take-front k b rest e, drop-front k b rest e) refl

pub take_le-append :
    (k n : ℕ) (rest : List ℕ) → n < 256 ^ k → take_le k (le_bytes k n ++ rest) ≡ step rest (ok n)
unfolding take_le
take_le-append k n rest lt =
    reads-then (take_bytes k) _ _ (take_bytes-append k (le_bytes k n) rest (length-le_bytes k n))
    ∙ ap (λ (m : ℕ). step rest (ok m)) (from_le-le_bytes k n lt)

-- A type that can begin a value.
abbrev pub opens : DataType → Bool
opens DataType.sequence_end = false
opens DataType.map_end = false
opens DataType.filler = false
opens _ = true

pub check_if_finished-opens :
    (t : DataType) (s : List ℕ)
    → opens t ≡ true
    → (check_if_finished DataType.sequence_end (byte t ∷ s) ≡ step (byte t ∷ s) (ok false))
      × (check_if_finished DataType.map_end (byte t ∷ s) ≡ step (byte t ∷ s) (ok false))
unfolding check_if_finished peek_data_type take_data_type take_u8 byte DataType.try_from
check_if_finished-opens DataType.sequence_end s o = absurd (false≢true o)
check_if_finished-opens DataType.map_end s o = absurd (false≢true o)
check_if_finished-opens DataType.filler s o = absurd (false≢true o)
check_if_finished-opens _ s o = (refl, refl)

pub check_if_finished-end :
    (s : List ℕ)
    → (check_if_finished DataType.sequence_end (byte DataType.sequence_end ∷ s) ≡ step s (ok true))
      × (check_if_finished DataType.map_end (byte DataType.map_end ∷ s) ≡ step s (ok true))
unfolding check_if_finished peek_data_type take_data_type take_u8 byte DataType.try_from
check_if_finished-end s = (refl, refl)

-- One of the four forms of a text.
pub sized_cases {ℓ} :
    (P : List ℕ → Type ℓ) (t8 t16 t32 t64 : DataType) (v : List ℕ)
    → length v < 256 ^ 8
    → (length v < 256 ^ 1 → P (byte t8 ∷ (le_bytes 1 (length v) ++ v)))
    → (length v < 256 ^ 2 → P (byte t16 ∷ (le_bytes 2 (length v) ++ v)))
    → (length v < 256 ^ 4 → P (byte t32 ∷ (le_bytes 4 (length v) ++ v)))
    → (length v < 256 ^ 8 → P (byte t64 ∷ (le_bytes 8 (length v) ++ v)))
    → P (sized t8 t16 t32 t64 v)
unfolding sized
sized_cases P t8 t16 t32 t64 v small p8 p16 p32 p64 =
    if_cases P (leb (length v) 255) (λ h. p8 (omega (arith, (leb_iff _ _).0 h)))
      (λ _.
        if_cases P (leb (length v) 65535) (λ h. p16 (omega (arith, (leb_iff _ _).0 h)))
          (λ _.
            if_cases P (leb (length v) 4294967295) (λ h. p32 (omega (arith, (leb_iff _ _).0 h)))
              (λ _. p64 small)))

-- The bytes of a value begin with a type that opens one.
abbrev pub Head : List ℕ → Type 0
Head l = (t : DataType) × (r : List ℕ) × (l ≡ byte t ∷ r) × (opens t ≡ true)

integer-opens : (v : Integer) → opens (integer_type v) ≡ true
integer-opens (Data.i8 v) = refl
integer-opens _ = refl

sized-Head :
    (t8 t16 t32 t64 : DataType) (v : List ℕ)
    → opens t8 ≡ true
    → opens t16 ≡ true
    → opens t32 ≡ true
    → opens t64 ≡ true
    → Head (sized t8 t16 t32 t64 v)
unfolding sized
sized-Head t8 t16 t32 t64 v o8 o16 o32 o64 =
    if_cases Head (leb (length v) 255) (λ _. (t8, _, refl, o8))
      (λ _.
        if_cases Head (leb (length v) 65535) (λ _. (t16, _, refl, o16))
          (λ _.
            if_cases Head (leb (length v) 4294967295) (λ _. (t32, _, refl, o32))
              (λ _. (t64, _, refl, o64))))

pub emit-Head : (i : ℕ) (d : Data) → Head (emit i d)
unfolding emit
emit-Head i (Data.bool true) = (_, _, refl, refl)
emit-Head i (Data.bool false) = (_, _, refl, refl)
emit-Head i (Data.integer v) = (_, _, refl, integer-opens v)
emit-Head i (Data.float (Data.f32 v)) = (_, _, refl, refl)
emit-Head i (Data.float (Data.f64 v)) = (_, _, refl, refl)
emit-Head i (Data.str v) = sized-Head _ _ _ _ v refl refl refl refl
emit-Head i (Data.bytes v) = sized-Head _ _ _ _ v refl refl refl refl
emit-Head i (Data.newtype_variant n d) =
    if_cases Head (n == serialize_enum_variant) (λ _. (_, _, refl, refl)) (λ _. (_, _, refl, refl))
emit-Head i _ = (_, _, refl, refl)

pub emit-pos : (i : ℕ) (d : Data) → 0 < length (emit i d)
emit-pos i d = let (t, r, e, _) = emit-Head i d in rw e (omega arith)

emit-check :
    (i : ℕ) (d : Data) (rest : List ℕ)
    → (check_if_finished DataType.sequence_end (emit i d ++ rest)
        ≡ step (emit i d ++ rest) (ok false))
      × (check_if_finished DataType.map_end (emit i d ++ rest) ≡ step (emit i d ++ rest) (ok false))
emit-check i d rest =
    let (t, r, e, o) = emit-Head i d in rw e (check_if_finished-opens t (r ++ rest) o)

-- What a sequence or a map leaves after check_if_finished, and whether it is finished.
abbrev pub ends_items : Items → Bool
ends_items Data.no_items = true
ends_items (Data.item d xs) = false

unfoldable pub left_items : ℕ → Items → List ℕ
unfolding emit
left_items i Data.no_items = []
left_items i (Data.item d xs) = emit_items i (Data.item d xs)

abbrev pub ends_pairs : Pairs → Bool
ends_pairs Data.no_pairs = true
ends_pairs (Data.pair k d ps) = false

unfoldable pub left_pairs : ℕ → Pairs → List ℕ
unfolding emit
left_pairs i Data.no_pairs = []
left_pairs i (Data.pair k d ps) = emit_pairs i (Data.pair k d ps)

abbrev pub ends_fields : Fields → Bool
ends_fields Data.no_fields = true
ends_fields (Data.field k d fs) = false

unfoldable pub left_fields : ℕ → Fields → List ℕ
unfolding emit
left_fields i Data.no_fields = []
left_fields i (Data.field k d fs) = emit_fields i (Data.field k d fs)

pub items-check :
    (i : ℕ) (xs : Items) (rest : List ℕ)
    → check_if_finished DataType.sequence_end (emit_items i xs ++ rest)
      ≡ step (left_items i xs ++ rest) (ok (ends_items xs))
unfolding emit left_items
items-check i Data.no_items rest = (check_if_finished-end rest).0
items-check i (Data.item d xs) rest =
    rw (append_assoc (emit i d) (emit_items (i + length (caps d)) xs) rest)
      ((emit-check i d (emit_items (i + length (caps d)) xs ++ rest)).0)

pub pairs-check :
    (i : ℕ) (ps : Pairs) (rest : List ℕ)
    → check_if_finished DataType.map_end (emit_pairs i ps ++ rest)
      ≡ step (left_pairs i ps ++ rest) (ok (ends_pairs ps))
unfolding emit left_pairs
pairs-check i Data.no_pairs rest = (check_if_finished-end rest).1
pairs-check i (Data.pair k d ps) rest =
    let j = i + length (caps k) in
    let tail = emit j d ++ emit_pairs (j + length (caps d)) ps in
    rw (append_assoc (emit i k) tail rest) ((emit-check i k (tail ++ rest)).1)

pub fields-check :
    (i : ℕ) (fs : Fields) (rest : List ℕ)
    → check_if_finished DataType.map_end (emit_fields i fs ++ rest)
      ≡ step (left_fields i fs ++ rest) (ok (ends_fields fs))
unfolding emit left_fields
fields-check i Data.no_fields rest = (check_if_finished-end rest).1
fields-check i (Data.field k d fs) rest = (check_if_finished-opens DataType.string64 _ refl).1
