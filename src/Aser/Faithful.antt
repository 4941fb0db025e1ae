-- ===== src/Aser/Faithful.antt =====
-- Writing and reading a value of userland/aser/src/value/mod.rs.
use aurora_os.Prelude.{some, ◌==◌, ◌≤◌, ◌≡◌, refl, ap, ◌∙◌, false, length}
use aurora_os.Cap.CapId
use aurora_os.Aser.Result.{ok, ◌>>=◌}
use aurora_os.Aser.Data.{serialize_enum_variant}
use aurora_os.Aser.Value
use aurora_os.Aser.Value.{
  Value, Values, Entries, OrderedMap, serialize, serialize_elements, serialize_entries,
}
use aurora_os.Aser.Ser.{to_bytes_count_cap}
use aurora_os.Aser.Ser.Emit.{caps}
use aurora_os.Aser.De.Call.{Text}
use aurora_os.Aser.De.Visitor.{Primitive}
use aurora_os.Aser.De.{from_bytes}
use aurora_os.Aser.RoundTrip.{from_bytes-to_bytes_count_cap}
use aurora_os.Aser.Agree.{from_serialize-value_of}
use aurora_os.Aser.Meaning.{IsData, value_of, values_of, entries_of}

module _ ⦃om : OrderedMap⦄ where
  -- The map after the insertion of entries in their order.
  unfoldable pub collect : Entries → Entries → Entries
  collect Value.empty es = es
  collect (Value.entry k v rest) es = collect rest (om.insert k v es)

  -- Entries in the order of the map: inserting them one by one gives them back.
  abbrev pub IsOrdered : Entries → Type 0
  IsOrdered es = collect es Value.empty ≡ es

  -- Every map in a value is in its order, every capability has an id, and a variant with data has no capability's index.
  unfoldable mutual
    pub IsValue : Value → Type 0
    IsValue (Value.sequence vs) = AreValues vs
    IsValue (Value.map es) = IsOrdered es × AreEntries es
    IsValue (Value.capability c) = CapId.try_from c ≡ some c
    IsValue (Value.newtype v) = IsValue v
    IsValue (Value.some_value v) = IsValue v
    IsValue (Value.enum_variant n v) = ((n == serialize_enum_variant) ≡ false) × IsValue v
    IsValue _ = Unit

    pub AreValues : Values → Type 0
    AreValues Value.nil = Unit
    AreValues (Value.cons v vs) = IsValue v × AreValues vs

    pub AreEntries : Entries → Type 0
    AreEntries Value.empty = Unit
    AreEntries (Value.entry k v es) = IsValue k × IsValue v × AreEntries es

  mutual
    unfolding serialize value_of IsValue collect

    value_lem : (v : Value) → IsValue v → value_of (serialize v) ≡ v
    value_lem Value.null h = refl
    value_lem (Value.bool b) h = refl
    value_lem (Value.integer n) h = refl
    value_lem (Value.float n) h = refl
    value_lem (Value.char c) h = refl
    value_lem (Value.string s) h = refl
    value_lem (Value.bytes bs) h = refl
    value_lem (Value.capability c) h = refl
    value_lem (Value.sequence vs) h = ap Value.sequence (values_lem vs h)
    value_lem (Value.map es) (o, h) = ap Value.map (entries_lem es Value.empty h ∙ o)
    value_lem (Value.newtype v) h = ap Value.newtype (value_lem v h)
    value_lem (Value.some_value v) h = ap Value.some_value (value_lem v h)
    value_lem (Value.enum_variant n Value.null) h = refl
    value_lem (Value.enum_variant n v) (e, h) = rw e (ap (Value.enum_variant n) (value_lem v h))

    values_lem : (vs : Values) → AreValues vs → values_of (serialize_elements vs) ≡ vs
    values_lem Value.nil h = refl
    values_lem (Value.cons v vs) (h, hs) = rw (value_lem v h, values_lem vs hs) refl

    entries_lem :
        (es acc : Entries) → AreEntries es → entries_of (serialize_entries es) acc ≡ collect es acc
    entries_lem Value.empty acc h = refl
    entries_lem (Value.entry k v es) acc (hk, hv, hes) =
        rw (value_lem k hk, value_lem v hv) (entries_lem es (om.insert k v acc) hes)

  pub value_of-serialize : (v : Value) → IsValue v → value_of (serialize v) ≡ v
  value_of-serialize v h = value_lem v h

module _ ⦃txt : Text⦄ ⦃om : OrderedMap⦄ ⦃prim : Primitive⦄ where
  -- A value whose maps are in the order of the map, whose capabilities have ids, whose variants
  -- with data do not have the index of a capability, which the format can hold and which has at
  -- most 65536 capabilities, is read back the same from the bytes that to_bytes_count_cap writes
  -- for it.
  pub from_bytes-serialize :
      (v : Value)
      → IsValue v
      → IsData (serialize v)
      → length (caps (serialize v)) ≤ 65536
      → to_bytes_count_cap (serialize v) >>= from_bytes ≡ ok v
  from_bytes-serialize v h hd few =
      from_bytes-to_bytes_count_cap (serialize v) hd few
      ∙ from_serialize-value_of (serialize v) hd
      ∙ ap (λ (w : Value). ok w) (value_of-serialize v h)
