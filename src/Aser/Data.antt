-- ===== src/Aser/Data.antt =====
-- What an implementation of `Serialize` calls a serializer of userland/aser with, one constructor
-- for each serialize_* method of the `serde` crate. An integer or a float is its bits, a text its
-- bytes. The names of types, fields and variants that no serializer uses are left out.
use aurora_os.Prelude.{ℕ, Bool, List}

-- Integer and Float of userland/aser/src/value/mod.rs.
pub data Integer : Type 0 where
  i8 i16 i32 i64 i128 u8 u16 u32 u64 u128 : ℕ → Integer

pub data Float : Type 0 where
  f32 f64 : ℕ → Float

mutual
  pub data Data : Type 0 where
    bool : Bool → Data
    integer : Integer → Data
    float : Float → Data
    char : ℕ → Data
    str bytes : List ℕ → Data
    unit : Data
    none_value : Data
    some_value : Data → Data
    unit_struct : Data
    unit_variant : ℕ → Data
    newtype_struct : Data → Data
    newtype_variant : ℕ → Data → Data
    seq tuple tuple_struct : Items → Data
    tuple_variant : ℕ → Items → Data
    map : Pairs → Data
    structure : Fields → Data
    struct_variant : ℕ → Fields → Data
    display : List ℕ → Data

  pub data Items : Type 0 where
    no_items : Items
    item : Data → Items → Items

  pub data Pairs : Type 0 where
    no_pairs : Pairs
    pair : Data → Data → Pairs → Pairs

  pub data Fields : Type 0 where
    no_fields : Fields
    field : List ℕ → Data → Fields → Fields

-- CapId::SERIALIZE_ENUM_VARIANT of userland/sys/src/cap.rs: the variant that marks a capability.
abbrev pub serialize_enum_variant : ℕ
serialize_enum_variant = 2987132124
