-- ===== src/Aser/Meaning.antt =====
-- What a serialized value of userland/aser stands for, independent of the code: the value that a
-- reader is to see, and the values that the format can hold.
use aurora_os.Prelude.{ℕ, ◌==◌, ◌^◌, ◌<◌, ◌≡◌, ◌⊎◌, true, false, List, if◌then◌else◌, length, some}
use aurora_os.Cap.CapId
use aurora_os.Aser.Result.{ok}
use aurora_os.Aser.Data
use aurora_os.Aser.Data.{Data, Integer, Float, Items, Pairs, Fields, serialize_enum_variant}
use aurora_os.Aser.Value
use aurora_os.Aser.Value.{Value, Values, Entries, OrderedMap}
use aurora_os.Aser.Counter.{get_capability}
use aurora_os.Aser.Ser.Emit.{bits, width, cap_of}
use aurora_os.Aser.De.Call.{Text}

module _ ⦃om : OrderedMap⦄ where
  unfoldable mutual
    pub value_of : Data → Value
    value_of (Data.bool v) = Value.bool v
    value_of (Data.integer v) = Value.integer v
    value_of (Data.float v) = Value.float v
    value_of (Data.char v) = Value.char v
    value_of (Data.str v) = Value.string v
    value_of (Data.bytes v) = Value.bytes v
    value_of Data.unit = Value.null
    value_of Data.none_value = Value.null
    value_of (Data.some_value d) = Value.some_value (value_of d)
    value_of Data.unit_struct = Value.null
    value_of (Data.unit_variant n) = Value.enum_variant n Value.null
    value_of (Data.newtype_struct d) = Value.newtype (value_of d)
    value_of (Data.newtype_variant n d) =
        if n == serialize_enum_variant
        then Value.capability (cap_of d)
        else Value.enum_variant n (value_of d)
    value_of (Data.seq xs) = Value.sequence (values_of xs)
    value_of (Data.tuple xs) = Value.sequence (values_of xs)
    value_of (Data.tuple_struct xs) = Value.sequence (values_of xs)
    value_of (Data.tuple_variant n xs) = Value.enum_variant n (Value.sequence (values_of xs))
    value_of (Data.map ps) = Value.map (entries_of ps Value.empty)
    value_of (Data.structure fs) = Value.map (members_of fs Value.empty)
    value_of (Data.struct_variant n fs) =
        Value.enum_variant n (Value.map (members_of fs Value.empty))
    value_of (Data.display v) = Value.string v

    pub values_of : Items → Values
    values_of Data.no_items = Value.nil
    values_of (Data.item d xs) = Value.cons (value_of d) (values_of xs)

    pub entries_of : Pairs → Entries → Entries
    entries_of Data.no_pairs es = es
    entries_of (Data.pair k d ps) es = entries_of ps (om.insert (value_of k) (value_of d) es)

    pub members_of : Fields → Entries → Entries
    members_of Data.no_fields es = es
    members_of (Data.field k d fs) es = members_of fs (om.insert (Value.string k) (value_of d) es)

abbrev pub FitsFloat : Float → Type 0
FitsFloat (Data.f32 v) = v < 256 ^ 4
FitsFloat (Data.f64 v) = v < 256 ^ 8

-- A capability variant holds the id of a capability.
abbrev pub IsId : Data → Type 0
IsId d =
    (get_capability d ≡ ok (cap_of d))
    × (cap_of d < 256 ^ 8)
    × (CapId.try_from (cap_of d) ≡ some (cap_of d))

-- The index of a variant that is none of a capability.
abbrev pub IsIndex : ℕ → Type 0
IsIndex n = (n < 256 ^ 4) × ((n == serialize_enum_variant) ≡ false)

module _ ⦃txt : Text⦄ where
  abbrev pub IsText : List ℕ → Type 0
  IsText v = (length v < 256 ^ 8) × (txt.is_utf8 v ≡ true)

  unfoldable mutual
    pub IsData : Data → Type 0
    IsData (Data.bool v) = Unit
    IsData (Data.integer v) = bits v < 256 ^ width v
    IsData (Data.float v) = FitsFloat v
    IsData (Data.char v) = (v < 256 ^ 4) × (txt.is_char v ≡ true)
    IsData (Data.str v) = IsText v
    IsData (Data.bytes v) = length v < 256 ^ 8
    IsData Data.unit = Unit
    IsData Data.none_value = Unit
    IsData (Data.some_value d) = IsData d
    IsData Data.unit_struct = Unit
    IsData (Data.unit_variant n) = IsIndex n
    IsData (Data.newtype_struct d) = IsData d
    IsData (Data.newtype_variant n d) =
        (((n == serialize_enum_variant) ≡ true) × IsId d) ⊎ (IsIndex n × IsData d)
    IsData (Data.seq xs) = AreItems xs
    IsData (Data.tuple xs) = AreItems xs
    IsData (Data.tuple_struct xs) = AreItems xs
    IsData (Data.tuple_variant n xs) = IsIndex n × AreItems xs
    IsData (Data.map ps) = ArePairs ps
    IsData (Data.structure fs) = AreFields fs
    IsData (Data.struct_variant n fs) = IsIndex n × AreFields fs
    IsData (Data.display v) = IsText v

    pub AreItems : Items → Type 0
    AreItems Data.no_items = Unit
    AreItems (Data.item d xs) = IsData d × AreItems xs

    pub ArePairs : Pairs → Type 0
    ArePairs Data.no_pairs = Unit
    ArePairs (Data.pair k d ps) = IsData k × IsData d × ArePairs ps

    pub AreFields : Fields → Type 0
    AreFields Data.no_fields = Unit
    AreFields (Data.field k d fs) = IsText k × IsData d × AreFields fs
