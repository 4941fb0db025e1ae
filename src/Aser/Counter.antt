-- ===== src/Aser/Counter.antt =====
-- userland/aser/src/capability_serializer.rs and capability_counter.rs: the id inside a capability,
-- and the number of capabilities of a value.
use aurora_os.Prelude.{ℕ, ◌+◌, ◌%◌, ◌==◌, if◌then◌else◌}
use aurora_os.BitUtils.{usize_mod}
use aurora_os.Aser.Result.{Result, ok, err, ◌>>=◌, expected_capability}
use aurora_os.Aser.Data.{
  Data, Items, Pairs, Fields, integer, u64, some_value, newtype_struct, newtype_variant, seq, tuple,
  tuple_struct, tuple_variant, map, structure, struct_variant, no_items, item, no_pairs, pair,
  no_fields, field, serialize_enum_variant,
}

-- CapabilitySerializer, then `get_capability`: anything but one u64 is refused.
unfoldable pub get_capability : Data → Result ℕ
get_capability (integer (u64 n)) = ok n
get_capability _ = err expected_capability

-- CapabilityCounter, from the count so far.
unfoldable mutual
  unfolding get_capability

  pub count : Data → ℕ → Result ℕ
  count (some_value d) n = count d n
  count (newtype_struct d) n = count d n
  count (newtype_variant variant_index d) n =
      if variant_index == serialize_enum_variant
      then (do _ ← get_capability d; ok ((n + 1) % usize_mod))
      else count d n
  count (seq xs) n = count_elements xs n
  count (tuple xs) n = count_elements xs n
  count (tuple_struct xs) n = count_elements xs n
  count (tuple_variant variant_index xs) n = count_elements xs n
  count (map ps) n = count_pairs ps n
  count (structure fs) n = count_fields fs n
  count (struct_variant variant_index fs) n = count_fields fs n
  count _ n = ok n

  pub count_elements : Items → ℕ → Result ℕ
  count_elements no_items n = ok n
  count_elements (item d xs) n = do n' ← count d n; count_elements xs n'

  pub count_pairs : Pairs → ℕ → Result ℕ
  count_pairs no_pairs n = ok n
  count_pairs (pair k d ps) n = do n' ← count k n; n'' ← count d n'; count_pairs ps n''

  pub count_fields : Fields → ℕ → Result ℕ
  count_fields no_fields n = ok n
  count_fields (field k d fs) n = do n' ← count d n; count_fields fs n'

unfoldable pub count_capabilities : Data → Result ℕ
count_capabilities d = count d 0
