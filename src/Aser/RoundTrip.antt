-- ===== src/Aser/RoundTrip.antt =====
-- The reader of userland/aser on what the serializer writes.
use aurora_os.Prelude.{
  ℕ, zero, suc, ◌+◌, ◌*◌, ◌/◌, ◌%◌, ◌^◌, ◌<◌, ◌≤◌, ◌≡◌, refl, sym, ap, ◌∙◌, arith, All, List, [],
  ◌∷◌, ◌++◌, length, replicate, length-append, append-nil, inl, inr,
}
use aurora_os.BitUtils.{usize_mod}
use aurora_os.Aser.Result.{ok, ◌>>=◌}
use aurora_os.Aser.Bytes.{le_bytes, from_le}
use aurora_os.Aser.Bytes.Laws.{length-le_bytes, from_le-le_bytes, take-front, drop-front}
use aurora_os.Aser.DataType
use aurora_os.Aser.DataType.{byte}
use aurora_os.Aser.Data
use aurora_os.Aser.Data.{Data, Items, Pairs, Fields, serialize_enum_variant}
use aurora_os.Aser.Value.{OrderedMap, from_serialize}
use aurora_os.Aser.Ser.{to_bytes, to_bytes_count_cap}
use aurora_os.Aser.Ser.Emit.{emit, caps, caps_items, caps_pairs, caps_fields}
use aurora_os.Aser.Ser.Buffer.{words, fill, length-words}
use aurora_os.Aser.Ser.Appends.{to_bytes-emit}
use aurora_os.Aser.De.Input.{step, and_then, take_bytes, read_words}
use aurora_os.Aser.De.Call.{Text, deserialize_any, skip_filler}
use aurora_os.Aser.De.Visitor.{Primitive, visit}
use aurora_os.Aser.De.Reads.{reads-then, take_bytes-append}
use aurora_os.Aser.De.Starts.{read_value}
use aurora_os.Aser.De.Values.{value-read}
use aurora_os.Aser.De.{take_capabilities, finish, from_bytes}
use aurora_os.Aser.Agree.{from_serialize-value_of, count_capabilities-caps}
use aurora_os.Aser.Meaning.{IsData, AreItems, ArePairs, AreFields, value_of}

AreWords : List ℕ → Type 0
AreWords = All (λ c. c < 256 ^ 8)

All-append {ℓ κ} :
    {A : Type ℓ} (P : A → Type κ) (xs ys : List A) → All P xs → All P ys → All P (xs ++ ys)
All-append P [] ys h h' = h'
All-append P (x ∷ xs) ys (h, hs) h' = (h, All-append P xs ys hs h')

module _ ⦃txt : Text⦄ where
  mutual
    unfolding caps IsData AreWords

    caps-AreWords : (d : Data) → IsData d → AreWords (caps d)
    caps-AreWords (Data.some_value d) h = caps-AreWords d h
    caps-AreWords (Data.newtype_struct d) h = caps-AreWords d h
    caps-AreWords (Data.newtype_variant n d) (inl (e, (g, lt, t))) = rw e (lt, tt)
    caps-AreWords (Data.newtype_variant n d) (inr (e, h)) = rw (e.1) (caps-AreWords d h)
    caps-AreWords (Data.seq xs) h = caps_items-AreWords xs h
    caps-AreWords (Data.tuple xs) h = caps_items-AreWords xs h
    caps-AreWords (Data.tuple_struct xs) h = caps_items-AreWords xs h
    caps-AreWords (Data.tuple_variant n xs) h = caps_items-AreWords xs (h.1)
    caps-AreWords (Data.map ps) h = caps_pairs-AreWords ps h
    caps-AreWords (Data.structure fs) h = caps_fields-AreWords fs h
    caps-AreWords (Data.struct_variant n fs) h = caps_fields-AreWords fs (h.1)
    caps-AreWords _ h = tt

    caps_items-AreWords : (xs : Items) → AreItems xs → AreWords (caps_items xs)
    caps_items-AreWords Data.no_items h = tt
    caps_items-AreWords (Data.item d xs) (h, hs) =
        All-append _ (caps d) (caps_items xs) (caps-AreWords d h) (caps_items-AreWords xs hs)

    caps_pairs-AreWords : (ps : Pairs) → ArePairs ps → AreWords (caps_pairs ps)
    caps_pairs-AreWords Data.no_pairs h = tt
    caps_pairs-AreWords (Data.pair k d ps) (hk, hd, hps) =
        All-append _ (caps k) (caps d ++ caps_pairs ps) (caps-AreWords k hk)
          (All-append _ (caps d) (caps_pairs ps) (caps-AreWords d hd) (caps_pairs-AreWords ps hps))

    caps_fields-AreWords : (fs : Fields) → AreFields fs → AreWords (caps_fields fs)
    caps_fields-AreWords Data.no_fields h = tt
    caps_fields-AreWords (Data.field k d fs) (hk, hd, hfs) =
        All-append _ (caps d) (caps_fields fs) (caps-AreWords d hd) (caps_fields-AreWords fs hfs)

read_words-words : (cs : List ℕ) → AreWords cs → read_words (length cs) (words cs) ≡ cs
unfolding read_words words AreWords
read_words-words [] h = refl
read_words-words (c ∷ cs) (h, hs) =
    rw
      (
        take-front 8 (le_bytes 8 c) (words cs) (length-le_bytes 8 c),
        drop-front 8 (le_bytes 8 c) (words cs) (length-le_bytes 8 c),
        from_le-le_bytes 8 c h,
        read_words-words cs hs,
      )
      refl

take_capabilities-words :
    (cs tail : List ℕ)
    → AreWords cs
    → length cs ≤ 65536
    → take_capabilities (le_bytes 8 (length cs) ++ (words cs ++ tail)) ≡ step tail (ok cs)
unfolding take_capabilities
take_capabilities-words cs tail h few =
    let count : from_le (le_bytes 8 (length cs)) ≡ length cs =
      from_le-le_bytes 8 (length cs) (omega (arith, few)) in
    let size : 8 * length cs % usize_mod ≡ length (words cs) =
      omega (arith, few, length-words cs) in
    let number : length (words cs) / 8 ≡ length cs = omega (arith, length-words cs) in
    reads-then (take_bytes 8) _ _ (
      take_bytes-append 8 (le_bytes 8 (length cs)) (words cs ++ tail)
        (length-le_bytes 8 (length cs)))
    ∙ rw (count, size, take_bytes-append (length (words cs)) (words cs) tail refl)
        (rw (number, read_words-words cs h) refl)

skip_filler-fill :
    (n : ℕ) (tail : List ℕ)
    → skip_filler (replicate n (byte DataType.filler) ++ tail) ≡ skip_filler tail
unfolding skip_filler byte
skip_filler-fill zero tail = refl
skip_filler-fill (suc n) tail = skip_filler-fill n tail

module _ ⦃txt : Text⦄ (table : List ℕ) where
  deserialize_any-fill :
      (n : ℕ) (tail : List ℕ) → deserialize_any table (fill n ++ tail) ≡ deserialize_any table tail
  unfolding deserialize_any fill
  deserialize_any-fill n tail = rw (skip_filler-fill (n * 8) tail) refl

module _ ⦃txt : Text⦄ ⦃om : OrderedMap⦄ ⦃prim : Primitive⦄ (d : Data) (h : IsData d)
    (few : length (caps d) ≤ 65536) where
  written : ℕ → List ℕ
  written free = le_bytes 8 (length (caps d)) ++ (words (caps d) ++ (fill free ++ emit 0 d))

  from_bytes-written : (free : ℕ) → from_bytes (written free) ≡ ok (value_of d)
  unfolding from_bytes written finish
  from_bytes-written free =
      let cs = caps d in
      let fuel = 2 * length (written free) + 2 in
      let enough : length (emit 0 d) ≤ fuel = omega (
        arith,
        length-append (le_bytes 8 (length cs)) (words cs ++ (fill free ++ emit 0 d)),
        length-append (words cs) (fill free ++ emit 0 d),
        length-append (fill free) (emit 0 d),
      ) in
      let head = take_capabilities-words cs (fill free ++ emit 0 d) (caps-AreWords d h) few in
      let skipped = deserialize_any-fill cs free (emit 0 d) in
      let found : read_value cs fuel (emit 0 d ++ []) ≡ step [] (ok (value_of d)) =
        value-read cs fuel 0 d [] h enough ([], [], refl, sym (append-nil cs)) few in
      let found' : read_value cs fuel (emit 0 d) ≡ step [] (ok (value_of d)) =
        ap (read_value cs fuel) (sym (append-nil (emit 0 d))) ∙ found in
      ap finish (
        reads-then take_capabilities (λ capabilities. read_value capabilities fuel) _ head
        ∙ ap (λ s. and_then s (visit cs fuel)) skipped
        ∙ found')

  -- For what a serializer is called with, where numbers fit their widths, texts are valid and
  -- shorter than 2 ^ 64 bytes, only a capability's variant has the index of one and holds the id
  -- of one, with at most 65536 capabilities, the reader gives back from the bytes that to_bytes
  -- writes the value that the calls stand for, also if the table was made larger than the
  -- capabilities need and ends in filler bytes, as long as it has fewer than 2 ^ 59 entries.
  pub from_bytes-to_bytes :
      (free : ℕ)
      → length (caps d) + free < 2 ^ 59
      → to_bytes d (length (caps d) + free) >>= from_bytes ≡ ok (value_of d)
  unfolding written
  from_bytes-to_bytes free small = rw (to_bytes-emit d free h small) (from_bytes-written free)

  -- For what a serializer is called with, where numbers fit their widths, texts are valid and
  -- shorter than 2 ^ 64 bytes, only a capability's variant has the index of one and holds the id
  -- of one, with at most 65536 capabilities, writing with to_bytes_count_cap and reading a Value
  -- gives what Value::from_serialize builds without any bytes.
  pub from_bytes-to_bytes_count_cap : to_bytes_count_cap d >>= from_bytes ≡ from_serialize d
  unfolding to_bytes_count_cap
  from_bytes-to_bytes_count_cap =
      let none_free : length (caps d) ≡ length (caps d) + 0 = omega arith in
      let bytes : to_bytes d (length (caps d)) >>= from_bytes ≡ ok (value_of d) =
        ap (λ n. to_bytes d n >>= from_bytes) none_free
        ∙ from_bytes-to_bytes 0 (omega (arith, few)) in
      rw (count_capabilities-caps d h (omega (arith, few)), from_serialize-value_of d h) bytes
