-- ===== src/Aser/De/CallWithin.antt =====
-- `deserialize_any` of userland/aser/src/de.rs, and how much of the input it leaves.
use mathlib.Core.Bool.{false≢true}
use aurora_os.Prelude.{
  ℕ, sym, suc, ◌==◌, ◌≤◌, ◌≡◌, arith, false, List, [], ◌∷◌, length, if_cases, Option, none, some,
  get_elem?,
}
use aurora_os.Aser.Result.{invalid_capability_index, invalid_data_type}
use aurora_os.Aser.DataType
use aurora_os.Aser.DataType.{DataType, byte, is_filler, try_from-is_filler}
use aurora_os.Aser.De.Input.{
  Reader, and_then, returns, or_fail, take_bytes, take_u8, take_le, take_data_type,
}
use aurora_os.Aser.De.Call.{
  Text, Call, visit_seq, visit_map, visit_capability, deserialize_any, call_of, skip_filler,
  str_call, char_call, take_str, capability_call,
}
use aurora_os.Aser.De.Within.{
  Within, and_then-Within, or_fail-Within, take_bytes-Within, take_le-Within, integer_call-Within,
  bytes_call-Within, end_call-Within,
}

module _ ⦃txt : Text⦄ where
  pub str_call-Within : (k m : ℕ) (s : List ℕ) → length s ≤ m → Within m (str_call k s)
  unfolding str_call take_str Within
  str_call-Within k m s h =
      and_then-Within m m (take_le k s) _ (take_le-Within k m s (omega arith)) (λ n s' h'.
        and_then-Within m m (take_str n s') _
          (and_then-Within m m (take_bytes n s') _ (take_bytes-Within n m s' (omega arith))
            (λ b s'' h''.
              if_cases (λ (r : Reader (List ℕ)). Within m (r s'')) (txt.is_utf8 b) (λ _. h'')
                (λ _. tt)))
          (λ _ s'' h''. h''))

  pub char_call-Within : (m : ℕ) (s : List ℕ) → length s ≤ m → Within m (char_call s)
  unfolding char_call Within
  char_call-Within m s h =
      and_then-Within m m (take_le 4 s) _ (take_le-Within 4 m s (omega arith)) (λ n s' h'.
        if_cases (λ (r : Reader Call). Within m (r s')) (txt.is_char n) (λ _. h') (λ _. tt))

  module _ (table : List ℕ) where
    pub call_of-Within :
        (t : DataType) (m : ℕ) (s : List ℕ)
        → is_filler (some t) ≡ false
        → length s ≤ m
        → Within m (call_of table t s)
    unfolding call_of Within capability_call
    call_of-Within DataType.i8 m s n h = integer_call-Within 1 _ m s h
    call_of-Within DataType.i16 m s n h = integer_call-Within 2 _ m s h
    call_of-Within DataType.i32 m s n h = integer_call-Within 4 _ m s h
    call_of-Within DataType.i64 m s n h = integer_call-Within 8 _ m s h
    call_of-Within DataType.i128 m s n h = integer_call-Within 16 _ m s h
    call_of-Within DataType.u8 m s n h = integer_call-Within 1 _ m s h
    call_of-Within DataType.u16 m s n h = integer_call-Within 2 _ m s h
    call_of-Within DataType.u32 m s n h = integer_call-Within 4 _ m s h
    call_of-Within DataType.u64 m s n h = integer_call-Within 8 _ m s h
    call_of-Within DataType.u128 m s n h = integer_call-Within 16 _ m s h
    call_of-Within DataType.f32 m s n h =
        and_then-Within m m (take_le 4 s) _ (take_le-Within 4 m s (omega arith)) (λ _ s' h'. h')
    call_of-Within DataType.f64 m s n h =
        and_then-Within m m (take_le 8 s) _ (take_le-Within 8 m s (omega arith)) (λ _ s' h'. h')
    call_of-Within DataType.char m s n h = char_call-Within m s h
    call_of-Within DataType.string8 m s n h = str_call-Within 1 m s h
    call_of-Within DataType.string16 m s n h = str_call-Within 2 m s h
    call_of-Within DataType.string32 m s n h = str_call-Within 4 m s h
    call_of-Within DataType.string64 m s n h = str_call-Within 8 m s h
    call_of-Within DataType.bytes8 m s n h = bytes_call-Within 1 m s h
    call_of-Within DataType.bytes16 m s n h = bytes_call-Within 2 m s h
    call_of-Within DataType.bytes32 m s n h = bytes_call-Within 4 m s h
    call_of-Within DataType.bytes64 m s n h = bytes_call-Within 8 m s h
    call_of-Within DataType.sequence_start m s n h =
        end_call-Within DataType.sequence_end visit_seq m s h
    call_of-Within DataType.map_start m s n h = end_call-Within DataType.map_end visit_map m s h
    call_of-Within DataType.capability m s n h =
        and_then-Within m m (take_le 2 s) _ (take_le-Within 2 m s (omega arith)) (λ n s' h'.
          and_then-Within m m (or_fail (get_elem? table n) invalid_capability_index s')
            (λ value. returns (visit_capability value))
            (or_fail-Within m (get_elem? table n) invalid_capability_index s' h')
            (λ _ s'' h''. h''))
    call_of-Within DataType.filler m s n h = absurd (false≢true (sym n))
    call_of-Within DataType.sequence_end m s n h = tt
    call_of-Within DataType.map_end m s n h = tt
    call_of-Within _ m s n h = h

    pub typed-Within :
        (o : Option DataType) (m : ℕ) (s : List ℕ)
        → is_filler o ≡ false
        → length s ≤ m
        → Within m (and_then (or_fail o invalid_data_type s) (call_of table))
    unfolding Within
    typed-Within none m s n h = tt
    typed-Within (some t) m s n h = call_of-Within t m s n h

    pub skipped-Within :
        (m : ℕ) (s : List ℕ)
        → length s ≤ suc m
        → Within m (and_then (take_data_type (skip_filler s)) (call_of table))
    unfolding Within skip_filler take_data_type take_u8 byte
    skipped-Within m [] h = tt
    skipped-Within m (b ∷ s) h =
        let again = skipped-Within m s (omega (arith, h)) in
        if_cases (λ (l : List ℕ). Within m (and_then (take_data_type l) (call_of table)))
          (b == byte DataType.filler) (λ _. again)
          (λ ne.
            typed-Within (DataType.try_from b) m s (try_from-is_filler b ne) (omega (arith, h)))

    pub deserialize_any-Within :
        (m : ℕ) (s : List ℕ) → length s ≤ suc m → Within m (deserialize_any table s)
    unfolding deserialize_any
    deserialize_any-Within m s h = skipped-Within m s h
