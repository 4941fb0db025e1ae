-- ===== src/Aser/Ser/Buffer.antt =====
-- The buffer of the serializer of userland/aser/src/ser.rs: its table of capabilities and the data
-- behind it.
use aurora_os.Prelude.{
  ℕ, zero, suc, ◌+◌, ◌*◌, ◌%◌, ◌^◌, ◌<◌, ◌≡◌, refl, sym, ap, ◌∙◌, arith, true, false, List, [], ◌∷◌,
  ◌++◌, leb, length, replicate, length-append, append_assoc, zero-add, suc-add, leb-false,
  length-replicate, leb_iff,
}
use aurora_os.BitUtils.{usize_mod}
use aurora_os.Aser.Result.{ok, err, too_many_capabilities}
use aurora_os.Aser.Bytes.{le_bytes, get_usize, set_usize}
use aurora_os.Aser.Bytes.Laws.{
  length-le_bytes, from_le-le_bytes, set_usize-append, get_usize-append,
}
use aurora_os.Aser.DataType.{DataType, byte}
use aurora_os.Aser.Ser.{Serializer, new, extend, push_capability}

-- The entries of the table, and those that are not set yet.
unfoldable pub words : List ℕ → List ℕ
words [] = []
words (c ∷ cs) = le_bytes 8 c ++ words cs

unfoldable pub fill : ℕ → List ℕ
fill n = replicate (n * 8) (byte DataType.filler)

-- The serializer with the capabilities `cs`, room for `free` more, and no data.
unfoldable pub table : ℕ → List ℕ → Serializer
table free cs = record {
  capability_index = suc (length cs);
  data_offset = 8 + 8 * (length cs + free);
  buf = le_bytes 8 (length cs) ++ (words cs ++ fill free);
}

pub extend-extend : (a b : List ℕ) (s : Serializer) → extend b (extend a s) ≡ extend (a ++ b) s
unfolding extend
extend-extend a b s = rw (append_assoc s.buf a b)

pub length-words : (cs : List ℕ) → length (words cs) ≡ 8 * length cs
unfolding words
length-words [] = omega arith
length-words (c ∷ cs) =
    omega (arith, length-append (le_bytes 8 c) (words cs), length-le_bytes 8 c, length-words cs)

words-snoc :
    (cs : List ℕ) (c : ℕ) (r : List ℕ) → words (cs ++ c ∷ []) ++ r ≡ words cs ++ (le_bytes 8 c ++ r)
unfolding words
words-snoc [] c r = append_assoc (le_bytes 8 c) [] r
words-snoc (c' ∷ cs) c r = rw (
  append_assoc (le_bytes 8 c') (words (cs ++ c ∷ [])) r,
  append_assoc (le_bytes 8 c') (words cs) (le_bytes 8 c ++ r),
  words-snoc cs c r,
)

replicate-add : (n k x : ℕ) → replicate (n + k) x ≡ replicate n x ++ replicate k x
replicate-add zero k x = rw (zero-add k)
replicate-add (suc n) k x = rw (suc-add n k) (ap (λ (l : List ℕ). x ∷ l) (replicate-add n k x))

fill-suc : (n : ℕ) → fill (suc n) ≡ replicate 8 (byte DataType.filler) ++ fill n
unfolding fill
fill-suc n =
    let e : suc n * 8 ≡ 8 + n * 8 = omega arith in
    rw e (replicate-add 8 (n * 8) (byte DataType.filler))

table-length :
    (free : ℕ) (cs : List ℕ) → suc (length cs) * 8 ≡ length (le_bytes 8 (length cs) ++ words cs)
table-length free cs = omega (
  arith,
  length-append (le_bytes 8 (length cs)) (words cs),
  length-le_bytes 8 (length cs),
  length-words cs,
)

pub same-Serializer :
    (i i' o o' : ℕ) (b b' : List ℕ)
    → i ≡ i'
    → o ≡ o'
    → b ≡ b'
    → ◌≡◌ {A = Serializer}
        (record { capability_index = i; data_offset = o; buf = b })
        (record { capability_index = i'; data_offset = o'; buf = b' })
same-Serializer i i' o o' b b' e e' e'' = rw (e, e', e'') refl

pub new-table : (n : ℕ) → n < 2 ^ 59 → new n ≡ table n []
unfolding new table fill words
new-table n small =
    let whole : n * 8 % usize_mod ≡ n * 8 = omega (arith, small) in
    let size : length (le_bytes 8 0 ++ fill n) ≡ 8 + 8 * (0 + n) = omega (
      arith,
      length-append (le_bytes 8 0) (fill n),
      length-le_bytes 8 0,
      length-replicate (n * 8) (byte DataType.filler),
    ) in
    rw whole (same-Serializer 1 1 _ _ _ _ refl size refl)

regroup : (a b f r t : List ℕ) → (a ++ (b ++ (f ++ r))) ++ t ≡ (a ++ b) ++ (f ++ (r ++ t))
regroup a b f r t =
    rw
      (
        append_assoc a (b ++ (f ++ r)) t,
        append_assoc b (f ++ r) t,
        append_assoc f r t,
        append_assoc a b,
      )
      refl

module _ (free : ℕ) (cs tail : List ℕ) (c : ℕ) (small : length cs + free < 2 ^ 59) where
  split-entry :
      (le_bytes 8 (length cs) ++ (words cs ++ fill (suc free))) ++ tail
      ≡ (le_bytes 8 (length cs) ++ words cs)
        ++ (replicate 8 (byte DataType.filler) ++ (fill free ++ tail))
  split-entry = rw (fill-suc free) (
      regroup (le_bytes 8 (length cs)) (words cs) (replicate 8 (byte DataType.filler)) (fill free)
        tail)

  write-entry :
      set_usize
        ((le_bytes 8 (length cs) ++ (words cs ++ fill (suc free))) ++ tail)
        (suc (length cs))
        c
      ≡ ok (le_bytes 8 (length cs) ++ (words (cs ++ c ∷ []) ++ (fill free ++ tail)))
  write-entry =
      rw
        (
          split-entry,
          words-snoc cs c (fill free ++ tail),
          ← append_assoc (le_bytes 8 (length cs)) (words cs) (le_bytes 8 c ++ (fill free ++ tail)),
        )
        (set_usize-append (le_bytes 8 (length cs) ++ words cs) (replicate 8 (byte DataType.filler))
          (fill free ++ tail) (suc (length cs)) c (omega (arith, small))
          (sym (table-length free cs)) refl)

  write-count :
      (q : List ℕ)
      → set_usize (le_bytes 8 (length cs) ++ q) 0 (suc (length cs))
        ≡ ok (le_bytes 8 (suc (length cs)) ++ q)
  write-count q =
      set_usize-append [] (le_bytes 8 (length cs)) q 0 (suc (length cs)) (omega arith) refl
        (length-le_bytes 8 (length cs))

  read-count : (q : List ℕ) → get_usize (le_bytes 8 (length cs) ++ q) 0 ≡ ok (length cs)
  read-count q =
      get_usize-append (le_bytes 8 (length cs)) q (length-le_bytes 8 (length cs))
      ∙ ap (λ (n : ℕ). ok n) (from_le-le_bytes 8 (length cs) (omega (arith, small)))

regroup-end : (a b r t : List ℕ) → a ++ (b ++ (r ++ t)) ≡ (a ++ (b ++ r)) ++ t
regroup-end a b r t =
    sym (append_assoc a (b ++ r) t ∙ ap (λ (l : List ℕ). a ++ l) (append_assoc b r t))

push_capability-steps :
    (s : Serializer) (c n : ℕ) (b b' : List ℕ)
    → leb s.data_offset (s.capability_index * 8 % usize_mod) ≡ false
    → set_usize s.buf s.capability_index c ≡ ok b
    → get_usize b 0 ≡ ok n
    → set_usize b 0 ((n + 1) % usize_mod) ≡ ok b'
    → push_capability c s
      ≡ ok (record s { buf = b'; capability_index = (s.capability_index + 1) % usize_mod })
unfolding push_capability
push_capability-steps s c n b b' e₁ e₂ e₃ e₄ = rw (push_capability, e₁, e₂, e₃, e₄) refl

pub push_capability-table :
    (free : ℕ) (cs tail : List ℕ) (c : ℕ)
    → length cs + free < 2 ^ 59
    → push_capability c (extend tail (table (suc free) cs))
      ≡ ok (extend tail (table free (cs ++ c ∷ [])))
unfolding extend table
push_capability-table free cs tail c small =
    let next : (length cs + 1) % usize_mod ≡ suc (length cs) = omega (arith, small) in
    let len : length (cs ++ c ∷ []) ≡ suc (length cs) = omega (arith, length-append cs (c ∷ [])) in
    let grouped : le_bytes 8 (suc (length cs)) ++ (words (cs ++ c ∷ []) ++ (fill free ++ tail))
        ≡ (le_bytes 8 (length (cs ++ c ∷ [])) ++ (words (cs ++ c ∷ []) ++ fill free)) ++ tail =
      rw len (regroup-end (le_bytes 8 (suc (length cs))) (words (cs ++ c ∷ [])) (fill free) tail) in
    push_capability-steps (extend tail (table (suc free) cs)) c (length cs) _ _
      (leb-false _ _ (omega (arith, small))) (write-entry free cs tail c small)
      (read-count free cs tail c small (words (cs ++ c ∷ []) ++ (fill free ++ tail)))
      (rw next (write-count free cs tail c small (words (cs ++ c ∷ []) ++ (fill free ++ tail))))
    ∙ ap (λ (s : Serializer). ok s)
        (same-Serializer _ _ _ _ _ _ (omega (arith, small, len)) (omega (arith, len)) grouped)

pub push_capability-full :
    (cs tail : List ℕ) (c : ℕ)
    → length cs < 2 ^ 59
    → push_capability c (extend tail (table 0 cs)) ≡ err too_many_capabilities
unfolding extend table push_capability
push_capability-full cs tail c small =
    let full : leb (8 + 8 * (length cs + 0)) (suc (length cs) * 8 % usize_mod) ≡ true =
      (leb_iff _ _).1 (omega (arith, small)) in
    rw (push_capability, full) refl
