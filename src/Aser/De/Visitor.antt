-- ===== src/Aser/De/Visitor.antt =====
-- ValueVisitor of userland/aser/src/value/mod.rs, driven by the accessors of userland/aser/src/de.rs.
-- The recursion is on fuel; two for each byte of the input are enough.
use aurora_os.Prelude.{ℕ, zero, suc, ◌==◌, Option, none, if◌then◌else◌, Bool, true, false, List}
use aurora_os.Cap.CapId
use aurora_os.Aser.Result.{ok, out_of_fuel, deserialize_message}
use aurora_os.Aser.DataType
use aurora_os.Aser.Data.{Integer, serialize_enum_variant}
use aurora_os.Aser.Value
use aurora_os.Aser.Value.{Value, Values, Entries, OrderedMap}
use aurora_os.Aser.De.Input.{
  step, Reader, ◌>>=◌, and_then, returns, fails, or_fail, take_le, then_check,
}
use aurora_os.Aser.De.Call.{
  Text, Call, visit_unit, visit_bool, visit_integer, visit_float, visit_char, visit_str,
  visit_bytes, visit_newtype_struct, visit_some, visit_seq, visit_map, visit_enum, visit_capability,
  deserialize_any,
}

-- The visitor for `u64` of the `serde` crate: which integers it takes.
pub record Primitive : Type 0 where
  pub visit_u64 : Integer → Option ℕ

module _ ⦃prim : Primitive⦄ where
  -- `u64::deserialize`
  unfoldable pub u64_of : Call → Option ℕ
  u64_of (visit_integer n) = prim.visit_u64 n
  u64_of _ = none

-- `CapId::try_from`, after the number was read.
unfoldable pub capability_of : ℕ → Reader Value
unfolding CapId.try_from
capability_of n = do
  c ← or_fail (CapId.try_from n) deserialize_message
  returns (Value.capability c)

module _ ⦃text : Text⦄ ⦃om : OrderedMap⦄ ⦃prim : Primitive⦄ (capabilities : List ℕ) where
  -- The number that a capability variant holds.
  unfoldable pub take_id : Bool → Reader ℕ
  take_id true = do call ← deserialize_any capabilities; or_fail (u64_of call) deserialize_message
  take_id false = fails deserialize_message

  unfoldable mutual
    pub visit : ℕ → Call → Reader Value
    visit zero call s = step s out_of_fuel
    visit (suc f) visit_unit s = step s (ok Value.null)
    visit (suc f) (visit_bool v) s = step s (ok (Value.bool v))
    visit (suc f) (visit_integer v) s = step s (ok (Value.integer v))
    visit (suc f) (visit_float v) s = step s (ok (Value.float v))
    visit (suc f) (visit_char v) s = step s (ok (Value.char v))
    visit (suc f) (visit_str v) s = step s (ok (Value.string v))
    visit (suc f) (visit_bytes v) s = step s (ok (Value.bytes v))
    visit (suc f) visit_newtype_struct s =
        (do value ← (deserialize_any capabilities >>= visit f); returns (Value.newtype value)) s
    visit (suc f) visit_some s =
        (do value ← (deserialize_any capabilities >>= visit f); returns (Value.some_value value)) s
    visit (suc f) (visit_seq finished) s =
        (do values ← elements f finished; returns (Value.sequence values)) s
    visit (suc f) (visit_map finished) s =
        (do values ← entries f finished Value.empty; returns (Value.map values)) s
    visit (suc f) (visit_enum has_data) s =
        (do
          variant_index ← take_le 4
          if variant_index == serialize_enum_variant
              then take_id has_data >>= capability_of
              else (do
                value ← variant_data f has_data
                returns (Value.enum_variant variant_index value)))
          s
    visit (suc f) (visit_capability cap_id) s = capability_of cap_id s

    -- newtype_variant_seed
    pub variant_data : ℕ → Bool → Reader Value
    variant_data f false s = step s (ok Value.null)
    variant_data zero true s = step s out_of_fuel
    variant_data (suc f) true s = (deserialize_any capabilities >>= visit f) s

    -- visit_seq: next_element until the end.
    pub elements : ℕ → Bool → Reader Values
    elements zero finished s = step s out_of_fuel
    elements (suc f) true s = step s (ok Value.nil)
    elements (suc f) false s =
        and_then (then_check DataType.sequence_end ((deserialize_any capabilities >>= visit f) s))
          (λ next. do values ← elements f (next.1); returns (Value.cons (next.0) values))

    -- visit_map: next_entry until the end.
    pub entries : ℕ → Bool → Entries → Reader Entries
    entries zero finished es s = step s out_of_fuel
    entries (suc f) true es s = step s (ok es)
    entries (suc f) false es s = and_then ((deserialize_any capabilities >>= visit f) s) (λ key s'.
        and_then (then_check DataType.map_end ((deserialize_any capabilities >>= visit f) s'))
          (λ next. entries f (next.1) (om.insert key (next.0) es)))
