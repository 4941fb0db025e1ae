-- ===== src/Aser/Tests.antt =====
-- Runs of the format of userland/aser on a message with a capability.
use aurora_os.Prelude.{
  suc, ℕ, ◌*◌, ◌+◌, ◌≡◌, ◌≢◌, refl, arith, Bool, true, List, [], ◌∷◌, ◌++◌, Option, none, some, ltb,
  ◌&&◌, length, inl, inr,
}
use aurora_os.Cap.CapId
use aurora_os.BitUtils.{get_bits}
use aurora_os.Aser.Result.{ok, err, panic, out_of_fuel, ◌>>=◌, too_many_capabilities}
use aurora_os.Aser.Bytes.{le_bytes}
use aurora_os.Aser.Data
use aurora_os.Aser.Data.{Data, Integer, serialize_enum_variant}
use aurora_os.Aser.Value
use aurora_os.Aser.Value.{Value, Entries, OrderedMap, from_serialize, serialize}
use aurora_os.Aser.Counter.{get_capability}
use aurora_os.Aser.Ser.{to_bytes, to_bytes_count_cap}
use aurora_os.Aser.Ser.Emit.{emit, caps}
use aurora_os.Aser.Ser.Buffer.{words, fill}
use aurora_os.Aser.Ser.Appends.{to_bytes-emit}
use aurora_os.Aser.Ser.Overflows.{to_bytes-too_many}
use aurora_os.Aser.De.{from_bytes}
use aurora_os.Aser.De.Call.{Text}
use aurora_os.Aser.De.Visitor.{Primitive}
use aurora_os.Aser.RoundTrip.{from_bytes-to_bytes, from_bytes-to_bytes_count_cap}
use aurora_os.Aser.Faithful.{IsValue, collect, from_bytes-serialize}
use aurora_os.Aser.IntoDeserialize.{into_deserialize, into_deserialize_same}
use aurora_os.Aser.CloneCaps.{
  CapClone, clone_caps_to_cspace, clone_all, new_cap_id, clone_caps_to_cspace-message,
}
use aurora_os.Aser.Ends.{from_bytes_answers}
use aurora_os.Aser.Meaning.{IsData, value_of}

abbrev all_below : ℕ → List ℕ → Bool
all_below n [] = true
all_below n (b ∷ bs) = ltb b n && all_below n bs

-- Texts of the ASCII characters.
instance abbrev ascii : Text
ascii = record { is_utf8 = all_below 128; is_char = λ c. ltb c 128 }

abbrev append_entry : Value → Value → Entries → Entries
append_entry k v Value.empty = Value.entry k v Value.empty
append_entry k v (Value.entry k' v' es) = Value.entry k' v' (append_entry k v es)

instance abbrev entries_at_end : OrderedMap
entries_at_end = record { insert = append_entry }

abbrev u64_only : Integer → Option ℕ
u64_only (Data.u64 n) = some n
u64_only _ = none

instance abbrev u64_visitor : Primitive
u64_visitor = record { visit_u64 = u64_only }

-- The id of a memory capability.
abbrev cap_number : ℕ
cap_number = 3 * 1024 + 5 * 32 + 1

-- A structure with a capability and a list.
abbrev letter : Data
letter = Data.structure (
    Data.field (99 ∷ [])
      (Data.newtype_variant serialize_enum_variant (Data.integer (Data.u64 cap_number)))
      (Data.field (108 ∷ [])
        (Data.seq
          (Data.item (Data.str (104 ∷ 105 ∷ [])) (Data.item (Data.bool true) Data.no_items)))
        Data.no_fields))

letter-IsData : IsData letter
unfolding IsData get_capability CapId.try_from CapId.from get_bits
letter-IsData = (
  (omega arith, refl),
  inl (refl, (refl, omega arith, refl)),
  ((omega arith, refl), ((omega arith, refl), (tt, tt)), tt),
)

caps_letter_lem : length (caps letter) ≡ 1
unfolding caps
caps_letter_lem = refl

to_bytes-emit_example :
    to_bytes letter (length (caps letter) + 2)
    ≡ ok (le_bytes 8 (length (caps letter)) ++ (words (caps letter) ++ (fill 2 ++ emit 0 letter)))
to_bytes-emit_example = to_bytes-emit letter 2 letter-IsData (omega (arith, caps_letter_lem))

from_bytes-to_bytes_example :
    to_bytes letter (length (caps letter) + 2) >>= from_bytes ≡ ok (value_of letter)
from_bytes-to_bytes_example =
    from_bytes-to_bytes letter letter-IsData (omega (arith, caps_letter_lem)) 2
      (omega (arith, caps_letter_lem))

from_bytes-to_bytes_count_cap_example :
    to_bytes_count_cap letter >>= from_bytes ≡ from_serialize letter
from_bytes-to_bytes_count_cap_example =
    from_bytes-to_bytes_count_cap letter letter-IsData (omega (arith, caps_letter_lem))

to_bytes-too_many_example : to_bytes letter 0 ≡ err too_many_capabilities
to_bytes-too_many_example =
    to_bytes-too_many letter 0 letter-IsData (omega (arith, caps_letter_lem)) (omega arith)

-- A list of a byte, an enumeration, a map and a capability.
abbrev parcel : Value
parcel = Value.sequence (
    Value.cons (Value.integer (Data.u8 7)) (
      Value.cons
        (Value.enum_variant 1 (Value.map (Value.entry Value.null (Value.bool true) Value.empty)))
        (Value.cons (Value.capability cap_number) Value.nil)))

parcel-IsValue : IsValue parcel
unfolding IsValue collect CapId.try_from CapId.from get_bits
parcel-IsValue = (tt, ((refl, (refl, (tt, tt, tt))), (refl, tt)))

parcel-IsData : IsData (serialize parcel)
unfolding IsData serialize get_capability CapId.try_from CapId.from get_bits
parcel-IsData = (
  omega arith,
  (inr ((omega arith, refl), (tt, tt, tt)), (inl (refl, (refl, omega arith, refl)), tt)),
)

caps_parcel_lem : length (caps (serialize parcel)) ≡ 1
unfolding caps serialize
caps_parcel_lem = refl

from_bytes-serialize_example : to_bytes_count_cap (serialize parcel) >>= from_bytes ≡ ok parcel
from_bytes-serialize_example =
    from_bytes-serialize parcel parcel-IsValue parcel-IsData (omega (arith, caps_parcel_lem))

into_deserialize_same_example : into_deserialize parcel ≡ ok parcel
into_deserialize_same_example = into_deserialize_same parcel parcel-IsValue

from_bytes_answers_example :
    (from_bytes (255 ∷ 26 ∷ []) ≢ panic) × (from_bytes (255 ∷ 26 ∷ []) ≢ out_of_fuel)
from_bytes_answers_example = from_bytes_answers (255 ∷ 26 ∷ [])

-- A capability space that numbers clones on.
instance abbrev next_number : CapClone ℕ
next_number = record { cap_clone_inner = λ c n. (ok (c + 1024 * n), suc n) }

-- A capability that the message has twice is cloned twice.
clone_caps_to_cspace-message_example :
    clone_caps_to_cspace {W = ℕ}
      (le_bytes 8 2 ++ (words (cap_number ∷ cap_number ∷ []) ++ (0 ∷ [])))
      1
    ≡ (ok tt, le_bytes 8 2 ++ (words (4257 ∷ 5281 ∷ []) ++ (0 ∷ [])), 3)
unfolding clone_all new_cap_id CapId.try_from CapId.from get_bits
clone_caps_to_cspace-message_example =
    clone_caps_to_cspace-message {W = ℕ} (cap_number ∷ cap_number ∷ []) (0 ∷ []) 1 (omega arith)
      (omega arith, (omega arith, tt))
