-- ===== src/Aser/Ser/Parts.antt =====
-- Parts of the serializer of userland/aser/src/ser.rs that append bytes and capabilities.
use aurora_os.Prelude.{
  ℕ, suc, ◌+◌, ◌-◌, ◌%◌, ◌^◌, ◌<◌, ◌≡◌, refl, ap, ◌∙◌, arith, List, [], ◌∷◌, ◌++◌, length,
  length-append, append_assoc, append-nil, zero-add,
}
use aurora_os.Aser.Result.{Result, ok, ◌>>=◌}
use aurora_os.Aser.Bytes.{le_bytes}
use aurora_os.Aser.DataType.{DataType, byte}
use aurora_os.Aser.Data
use aurora_os.Aser.Data.{Data, Integer, Float, Items, Pairs, Fields, serialize_enum_variant}
use aurora_os.Aser.Ser.{
  Serializer, extend, push_type, push_le, serialize_capability, serialize_integer, serialize_float,
  start_variant,
}
use aurora_os.Aser.Ser.Emit.{width, bits, integer_type, float_bytes}
use aurora_os.Aser.Ser.Buffer.{table, words, fill, extend-extend, push_capability-table}

-- A part of the serializer that appends the bytes `e`, which depend on the number of the
-- capabilities before them, and the capabilities `ks`.
unfoldable pub Appends : (Serializer → Result Serializer) → (ℕ → List ℕ) → List ℕ → Type 0
Appends r e ks =
    (free : ℕ) (cs tail : List ℕ)
    → length cs + (length ks + free) < 2 ^ 59
    → r (extend tail (table (length ks + free) cs))
      ≡ ok (extend (tail ++ e (length cs)) (table free (cs ++ ks)))

pub leaf :
    (r : Serializer → Result Serializer) (b : List ℕ)
    → ((s : Serializer) → r s ≡ ok (extend b s))
    → Appends r (λ _. b) []
unfolding Appends
leaf r b h free cs tail small =
    rw
      (
        h (extend tail (table (0 + free) cs)),
        extend-extend tail b (table (0 + free) cs),
        zero-add free,
        append-nil cs,
      )
      refl

pub prefix :
    (r r' : Serializer → Result Serializer) (b : List ℕ) (e : ℕ → List ℕ) (ks : List ℕ)
    → ((s : Serializer) → r' s ≡ r (extend b s))
    → Appends r e ks
    → Appends r' (λ i. b ++ e i) ks
unfolding Appends
prefix r r' b e ks h a free cs tail small =
    rw
      (
        h (extend tail (table (length ks + free) cs)),
        extend-extend tail b (table (length ks + free) cs),
        ← append_assoc tail b (e (length cs)),
      )
      (a free cs (tail ++ b) small)

-- One part after another.
pub sequel :
    (r r' : Serializer → Result Serializer) (e e' : ℕ → List ℕ) (ks ks' : List ℕ)
    → Appends r e ks
    → Appends r' e' ks'
    → Appends (λ s. r s >>= r') (λ i. e i ++ e' (i + length ks)) (ks ++ ks')
unfolding Appends
sequel r r' e e' ks ks' a a' free cs tail small =
    let len : length (ks ++ ks') ≡ length ks + length ks' = length-append ks ks' in
    let len' : length (cs ++ ks) ≡ length cs + length ks = length-append cs ks in
    let room : length (ks ++ ks') + free ≡ length ks + (length ks' + free) = omega (arith, len) in
    let first : r (extend tail (table (length ks + (length ks' + free)) cs))
        ≡ ok (extend (tail ++ e (length cs)) (table (length ks' + free) (cs ++ ks))) =
      a (length ks' + free) cs tail (omega (arith, small, len)) in
    let second : r' (extend (tail ++ e (length cs)) (table (length ks' + free) (cs ++ ks)))
        ≡ ok (
            extend ((tail ++ e (length cs)) ++ e' (length (cs ++ ks)))
              (table free ((cs ++ ks) ++ ks'))) =
      a' free (cs ++ ks) (tail ++ e (length cs)) (omega (arith, small, len, len')) in
    rw
      (
        room,
        first,
        second,
        len',
        append_assoc tail (e (length cs)) (e' (length cs + length ks)),
        append_assoc cs ks ks',
      )
      refl

pub header :
    (k n : ℕ) (t : DataType) (s : Serializer)
    → push_le k n (push_type t s) ≡ extend (byte t ∷ le_bytes k n) s
unfolding push_le push_type
header k n t s = extend-extend (byte t ∷ []) (le_bytes k n) s

pub capability-Appends :
    (c : ℕ)
    → Appends
        (serialize_capability (ok c))
        (λ i. byte DataType.capability ∷ le_bytes 2 (i % 65536))
        (c ∷ [])
unfolding Appends serialize_capability extend table
capability-Appends c free cs tail small =
    let one : 1 + free ≡ suc free = omega arith in
    let index : (suc (length cs) % 65536 + 65536 - 1) % 65536 ≡ length cs % 65536 = omega arith in
    let place : List ℕ = byte DataType.capability ∷ le_bytes 2 (length cs % 65536) in
    rw
      (
        index,
        header 2 (length cs % 65536) DataType.capability (extend tail (table (1 + free) cs)),
        extend-extend tail place (table (1 + free) cs),
        one,
      )
      (push_capability-table free cs (tail ++ place) c (omega (arith, small)))

pub serialize_integer-extend :
    (v : Integer) (s : Serializer)
    → serialize_integer v s ≡ extend (byte (integer_type v) ∷ le_bytes (width v) (bits v)) s
unfolding serialize_integer
serialize_integer-extend (Data.i8 v) s = header 1 v DataType.i8 s
serialize_integer-extend (Data.i16 v) s = header 2 v DataType.i16 s
serialize_integer-extend (Data.i32 v) s = header 4 v DataType.i32 s
serialize_integer-extend (Data.i64 v) s = header 8 v DataType.i64 s
serialize_integer-extend (Data.i128 v) s = header 16 v DataType.i128 s
serialize_integer-extend (Data.u8 v) s = header 1 v DataType.u8 s
serialize_integer-extend (Data.u16 v) s = header 2 v DataType.u16 s
serialize_integer-extend (Data.u32 v) s = header 4 v DataType.u32 s
serialize_integer-extend (Data.u64 v) s = header 8 v DataType.u64 s
serialize_integer-extend (Data.u128 v) s = header 16 v DataType.u128 s

pub serialize_float-extend :
    (v : Float) (s : Serializer) → serialize_float v s ≡ extend (float_bytes v) s
unfolding serialize_float
serialize_float-extend (Data.f32 v) s = header 4 v DataType.f32 s
serialize_float-extend (Data.f64 v) s = header 8 v DataType.f64 s

-- A step that cannot fail, before another part.
pub behind :
    (g : Serializer → Serializer) (r r' : Serializer → Result Serializer) (b : List ℕ)
    (e : ℕ → List ℕ) (ks : List ℕ)
    → ((s : Serializer) → g s ≡ extend b s)
    → ((s : Serializer) → r' s ≡ r (g s))
    → Appends r e ks
    → Appends r' (λ i. b ++ e i) ks
behind g r r' b e ks h h' a = prefix r r' b e ks (λ s. h' s ∙ ap r (h s)) a

pub sure :
    (g : Serializer → Serializer) (b : List ℕ)
    → ((s : Serializer) → g s ≡ extend b s)
    → Appends (λ s. ok (g s)) (λ _. b) []
sure g b h = leaf (λ s. ok (g s)) b (λ s. ap (λ (s' : Serializer). ok s') (h s))

pub same :
    (r r' : Serializer → Result Serializer) (e : ℕ → List ℕ) (ks : List ℕ)
    → ((s : Serializer) → r' s ≡ r s)
    → Appends r e ks
    → Appends r' e ks
unfolding Appends
same r r' e ks h a free cs tail small =
    h (extend tail (table (length ks + free) cs)) ∙ a free cs tail small

-- The start of a variant before its data.
pub variant_part :
    (n : ℕ) (r r' : Serializer → Result Serializer) (e : ℕ → List ℕ) (ks : List ℕ)
    → ((s : Serializer) → r' s ≡ r (start_variant n s))
    → Appends r e ks
    → Appends r' (λ i. byte DataType.variant_value ∷ (le_bytes 4 n ++ e i)) ks
unfolding start_variant
variant_part n r r' e ks h a =
    behind (start_variant n) r r' (byte DataType.variant_value ∷ le_bytes 4 n) e ks
      (header 4 n DataType.variant_value) h a

pub regroup-table :
    (cs : List ℕ) (free : ℕ) (tail : List ℕ)
    → Serializer.buf (extend tail (table free cs))
      ≡ le_bytes 8 (length cs) ++ (words cs ++ (fill free ++ tail))
unfolding extend table
regroup-table cs free tail =
    append_assoc (le_bytes 8 (length cs)) (words cs ++ fill free) tail
    ∙ ap (λ (l : List ℕ). le_bytes 8 (length cs) ++ l) (append_assoc (words cs) (fill free) tail)
