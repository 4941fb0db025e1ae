-- ===== src/Aser/Value.antt =====
-- userland/aser/src/value/mod.rs: any serialized value, and the serializer of
-- userland/aser/src/value/value_serializer.rs that builds one in memory.
pub mod Visitor
use mathlib.Core.Option.{none, some}
use aurora_os.Prelude.{ℕ, ◌==◌, Bool, List, if◌then◌else◌}
use aurora_os.Cap.CapId
use aurora_os.Aser.Result.{Result, ok, err, ◌>>=◌, invalid_capability_id}
use aurora_os.Aser.Data
use aurora_os.Aser.Data.{Data, Integer, Float, Items, Pairs, Fields, serialize_enum_variant}
use aurora_os.Aser.Counter.{get_capability}

mutual
  pub data Value : Type 0 where
    null : Value
    bool : Bool → Value
    integer : Integer → Value
    float : Float → Value
    char : ℕ → Value
    string bytes : List ℕ → Value
    sequence : Values → Value
    map : Entries → Value
    capability : ℕ → Value
    newtype : Value → Value
    some_value : Value → Value
    enum_variant : ℕ → Value → Value

  pub data Values : Type 0 where
    nil : Values
    cons : Value → Values → Values

  -- The entries of a `BTreeMap<Value, Value>` in its order.
  pub data Entries : Type 0 where
    empty : Entries
    entry : Value → Value → Entries → Entries

-- The library's `BTreeMap`: the entries after an insertion.
pub record OrderedMap : Type 0 where
  pub insert : Value → Value → Entries → Entries

-- The trait implementation `Serialize for Value`: which methods it calls.
unfoldable mutual
  pub serialize : Value → Data
  serialize null = Data.none_value
  serialize (bool b) = Data.bool b
  serialize (integer n) = Data.integer n
  serialize (float n) = Data.float n
  serialize (char c) = Data.char c
  serialize (string s) = Data.str s
  serialize (bytes bs) = Data.bytes bs
  serialize (sequence vs) = Data.tuple (serialize_elements vs)
  serialize (map es) = Data.map (serialize_entries es)
  serialize (capability cap_id) =
      Data.newtype_variant serialize_enum_variant (Data.integer (Data.u64 cap_id))
  serialize (newtype v) = Data.newtype_struct (serialize v)
  serialize (some_value v) = Data.some_value (serialize v)
  serialize (enum_variant variant_index null) = Data.unit_variant variant_index
  serialize (enum_variant variant_index v) = Data.newtype_variant variant_index (serialize v)

  pub serialize_elements : Values → Items
  serialize_elements nil = Data.no_items
  serialize_elements (cons v vs) = Data.item (serialize v) (serialize_elements vs)

  pub serialize_entries : Entries → Pairs
  serialize_entries empty = Data.no_pairs
  serialize_entries (entry k v es) = Data.pair (serialize k) (serialize v) (serialize_entries es)

module _ ⦃om : OrderedMap⦄ where
  -- ValueSerializer; a map is built from the entries before it.
  unfoldable mutual
    unfolding get_capability CapId.try_from

    pub from_serialize : Data → Result Value
    from_serialize (Data.bool b) = ok (bool b)
    from_serialize (Data.integer n) = ok (integer n)
    from_serialize (Data.float n) = ok (float n)
    from_serialize (Data.char c) = ok (char c)
    from_serialize (Data.str s) = ok (string s)
    from_serialize (Data.bytes bs) = ok (bytes bs)
    from_serialize Data.unit = ok null
    from_serialize Data.none_value = ok null
    from_serialize (Data.some_value d) = do v ← from_serialize d; ok (some_value v)
    from_serialize Data.unit_struct = ok null
    from_serialize (Data.unit_variant variant_index) = ok (enum_variant variant_index null)
    from_serialize (Data.newtype_struct d) = do v ← from_serialize d; ok (newtype v)
    from_serialize (Data.newtype_variant variant_index d) =
        if variant_index == serialize_enum_variant
        then (do
          n ← get_capability d
          elim (CapId.try_from n) [ none ↦ err invalid_capability_id | some c ↦ ok (capability c) ])
        else (do v ← from_serialize d; ok (enum_variant variant_index v))
    from_serialize (Data.seq xs) = do vs ← build_sequence xs; ok (sequence vs)
    from_serialize (Data.tuple xs) = do vs ← build_sequence xs; ok (sequence vs)
    from_serialize (Data.tuple_struct xs) = do vs ← build_sequence xs; ok (sequence vs)
    from_serialize (Data.tuple_variant variant_index xs) = do
      vs ← build_sequence xs
      ok (enum_variant variant_index (sequence vs))
    from_serialize (Data.map ps) = do es ← build_map ps empty; ok (map es)
    from_serialize (Data.structure fs) = do es ← build_struct fs empty; ok (map es)
    from_serialize (Data.struct_variant variant_index fs) = do
      es ← build_struct fs empty
      ok (enum_variant variant_index (map es))
    from_serialize (Data.display s) = ok (string s)

    pub build_sequence : Items → Result Values
    build_sequence Data.no_items = ok nil
    build_sequence (Data.item d xs) = do
      v ← from_serialize d
      vs ← build_sequence xs
      ok (cons v vs)

    pub build_map : Pairs → Entries → Result Entries
    build_map Data.no_pairs es = ok es
    build_map (Data.pair k d ps) es = do
      k' ← from_serialize k
      v ← from_serialize d
      build_map ps (om.insert k' v es)

    pub build_struct : Fields → Entries → Result Entries
    build_struct Data.no_fields es = ok es
    build_struct (Data.field k d fs) es = do
      v ← from_serialize d
      build_struct fs (om.insert (string k) v es)
