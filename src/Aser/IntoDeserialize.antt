-- ===== src/Aser/IntoDeserialize.antt =====
-- userland/aser/src/value/value_deserializer.rs: a value read from one in memory, with the visitor
-- of Value.
use aurora_os.Prelude.{ℕ, ◌==◌, ◌≡◌, refl, Option, none, some, if◌then◌else◌}
use aurora_os.Cap.CapId
use aurora_os.Aser.Result.{Result, ok, err, ◌>>=◌, deserialize_message}
use aurora_os.Aser.Data.{serialize_enum_variant}
use aurora_os.Aser.Data
use aurora_os.Aser.Value
use aurora_os.Aser.Value.Visitor
use aurora_os.Aser.Value.{Value, Values, Entries, OrderedMap}
use aurora_os.Aser.De.Visitor.{Primitive}
use aurora_os.Aser.Faithful.{IsValue, AreValues, AreEntries, collect}

-- `ok_or(A::Error::custom(...))`
abbrev ok_or_custom {ℓ} : {A : Type ℓ} → Option A → Result A
ok_or_custom none = err deserialize_message
ok_or_custom (some a) = ok a

module _ ⦃prim : Primitive⦄ where
  -- `u64::deserialize` of a value.
  unfoldable pub u64_in : Value → Result ℕ
  u64_in (Value.integer n) = ok_or_custom (prim.visit_u64 n)
  u64_in _ = err deserialize_message

unfoldable pub visit_capability_id : ℕ → Result Value
visit_capability_id n = do cap_id ← ok_or_custom (CapId.try_from n); ok (Value.capability cap_id)

-- The match on the number of an Integer or a Float, which calls the method of its type.
unfoldable pub visit_integer : Data.Integer → Result Value
unfolding Visitor.visit_i8 Visitor.visit_i16 Visitor.visit_i32 Visitor.visit_i64 Visitor.visit_i128
    Visitor.visit_u8 Visitor.visit_u16 Visitor.visit_u32 Visitor.visit_u64 Visitor.visit_u128
visit_integer (Data.i8 n) = Visitor.visit_i8 n
visit_integer (Data.i16 n) = Visitor.visit_i16 n
visit_integer (Data.i32 n) = Visitor.visit_i32 n
visit_integer (Data.i64 n) = Visitor.visit_i64 n
visit_integer (Data.i128 n) = Visitor.visit_i128 n
visit_integer (Data.u8 n) = Visitor.visit_u8 n
visit_integer (Data.u16 n) = Visitor.visit_u16 n
visit_integer (Data.u32 n) = Visitor.visit_u32 n
visit_integer (Data.u64 n) = Visitor.visit_u64 n
visit_integer (Data.u128 n) = Visitor.visit_u128 n

unfoldable pub visit_float : Data.Float → Result Value
unfolding Visitor.visit_f32 Visitor.visit_f64
visit_float (Data.f32 n) = Visitor.visit_f32 n
visit_float (Data.f64 n) = Visitor.visit_f64 n

module _ ⦃om : OrderedMap⦄ ⦃prim : Primitive⦄ where
  unfoldable mutual
    unfolding visit_integer visit_float Visitor.visit_unit Visitor.visit_bool Visitor.visit_char
        Visitor.visit_str Visitor.visit_bytes Visitor.visit_some Visitor.visit_newtype_struct

    pub into_deserialize : Value → Result Value
    into_deserialize Value.null = Visitor.visit_unit
    into_deserialize (Value.bool v) = Visitor.visit_bool v
    into_deserialize (Value.integer n) = visit_integer n
    into_deserialize (Value.float n) = visit_float n
    into_deserialize (Value.char c) = Visitor.visit_char c
    into_deserialize (Value.string s) = Visitor.visit_str s
    into_deserialize (Value.bytes bytes) = Visitor.visit_bytes bytes
    into_deserialize (Value.sequence elems) = do vs ← next_elements elems; ok (Value.sequence vs)
    into_deserialize (Value.map entries) = do
      es ← next_entries entries Value.empty
      ok (Value.map es)
    into_deserialize (Value.capability cap_id) = visit_capability_id cap_id
    into_deserialize (Value.newtype value) = Visitor.visit_newtype_struct (into_deserialize value)
    into_deserialize (Value.some_value value) = Visitor.visit_some (into_deserialize value)
    into_deserialize (Value.enum_variant variant_index value) =
        if variant_index == serialize_enum_variant
        then u64_in value >>= visit_capability_id
        else (do v ← into_deserialize value; ok (Value.enum_variant variant_index v))

    pub next_elements : Values → Result Values
    next_elements Value.nil = ok Value.nil
    next_elements (Value.cons elem elems) = do
      v ← into_deserialize elem
      vs ← next_elements elems
      ok (Value.cons v vs)

    pub next_entries : Entries → Entries → Result Entries
    next_entries Value.empty es = ok es
    next_entries (Value.entry key value entries) es = do
      k ← into_deserialize key
      v ← into_deserialize value
      next_entries entries (om.insert k v es)

  integer_same : (n : Data.Integer) → visit_integer n ≡ ok (Value.integer n)
  unfolding visit_integer
  integer_same (Data.i8 n) = refl
  integer_same (Data.i16 n) = refl
  integer_same (Data.i32 n) = refl
  integer_same (Data.i64 n) = refl
  integer_same (Data.i128 n) = refl
  integer_same (Data.u8 n) = refl
  integer_same (Data.u16 n) = refl
  integer_same (Data.u32 n) = refl
  integer_same (Data.u64 n) = refl
  integer_same (Data.u128 n) = refl

  float_same : (n : Data.Float) → visit_float n ≡ ok (Value.float n)
  unfolding visit_float
  float_same (Data.f32 n) = refl
  float_same (Data.f64 n) = refl

  mutual
    unfolding into_deserialize IsValue collect visit_capability_id

    value_same : (v : Value) → IsValue v → into_deserialize v ≡ ok v
    value_same Value.null h = refl
    value_same (Value.bool b) h = refl
    value_same (Value.integer n) h = integer_same n
    value_same (Value.float n) h = float_same n
    value_same (Value.char c) h = refl
    value_same (Value.string s) h = refl
    value_same (Value.bytes s) h = refl
    value_same (Value.sequence vs) h = rw (values_same vs h) refl
    value_same (Value.map es) (o, h) = rw (entries_same es Value.empty h, o) refl
    value_same (Value.capability c) h = rw h refl
    value_same (Value.newtype v) h = rw (value_same v h) refl
    value_same (Value.some_value v) h = rw (value_same v h) refl
    value_same (Value.enum_variant n v) (e, h) = rw e (rw (value_same v h) refl)

    values_same : (vs : Values) → AreValues vs → next_elements vs ≡ ok vs
    values_same Value.nil h = refl
    values_same (Value.cons v vs) (h, hs) = rw (value_same v h, values_same vs hs) refl

    entries_same : (es acc : Entries) → AreEntries es → next_entries es acc ≡ ok (collect es acc)
    entries_same Value.empty acc h = refl
    entries_same (Value.entry k v es) acc (hk, hv, hes) =
        rw (value_same k hk, value_same v hv) (entries_same es (om.insert k v acc) hes)

  -- A value in memory whose maps are in the order of the map, whose capabilities have ids and
  -- whose variants with data do not have the index of a capability is read by into_deserialize,
  -- with the visitor of Value, as the same value.
  pub into_deserialize_same : (v : Value) → IsValue v → into_deserialize v ≡ ok v
  into_deserialize_same v h = value_same v h
