-- ===== src/Aser/Ser/Texts.antt =====
-- Texts in the serializer of userland/aser/src/ser.rs: a type, a length and the bytes.
use aurora_os.Prelude.{
  ℕ, ◌-◌, ◌≡◌, refl, ap, ◌∙◌, arith, Bool, true, false, List, [], ◌∷◌, ◌++◌, leb, if◌then◌else◌,
  length, take, drop, length-append, append_assoc, take-append_length, drop-append_length,
}
use aurora_os.Aser.Bytes.{le_bytes}
use aurora_os.Aser.DataType.{DataType, byte}
use aurora_os.Aser.Ser.{Serializer, extend, push_type, push_le, push_correct_size, collect_str}
use aurora_os.Aser.Ser.Emit.{sized, text}
use aurora_os.Aser.Ser.Buffer.{extend-extend, same-Serializer}

pub extend-header :
    (k n : ℕ) (t : DataType) (v : List ℕ) (s : Serializer)
    → extend v (push_le k n (push_type t s)) ≡ extend (byte t ∷ (le_bytes k n ++ v)) s
unfolding push_le push_type
extend-header k n t v s =
    ap (extend v) (extend-extend (byte t ∷ []) (le_bytes k n) s)
    ∙ extend-extend (byte t ∷ le_bytes k n) v s

pub push_correct_size-sized :
    (v : List ℕ) (t8 t16 t32 t64 : DataType) (s : Serializer)
    → extend v (push_correct_size (length v) t8 t16 t32 t64 s) ≡ extend (sized t8 t16 t32 t64 v) s
unfolding push_correct_size sized
push_correct_size-sized v t8 t16 t32 t64 s =
    branches (leb (length v) 255) (leb (length v) 65535) (leb (length v) 4294967295)
  where
    n : ℕ
    n = length v

    branches :
        (b b' b'' : Bool)
        → extend v (
            if b
            then push_le 1 n (push_type t8 s)
            else (if b'
                then push_le 2 n (push_type t16 s)
                else (if b''
                    then push_le 4 n (push_type t32 s)
                    else push_le 8 n (push_type t64 s))))
          ≡ extend
              (if b
                then byte t8 ∷ (le_bytes 1 n ++ v)
                else (if b'
                    then byte t16 ∷ (le_bytes 2 n ++ v)
                    else (if b''
                        then byte t32 ∷ (le_bytes 4 n ++ v)
                        else byte t64 ∷ (le_bytes 8 n ++ v))))
              s
    branches true _ _ = extend-header 1 n t8 v s
    branches false true _ = extend-header 2 n t16 v s
    branches false false true = extend-header 4 n t32 v s
    branches false false false = extend-header 8 n t64 v s

-- A text whose length is written into the place `z` behind the header `p`.
write-size :
    (p z v : List ℕ)
    → take (length p) ((p ++ z) ++ v)
        ++ (le_bytes 8 (length ((p ++ z) ++ v) - length (p ++ z))
            ++ drop (length (p ++ z)) ((p ++ z) ++ v))
      ≡ p ++ (le_bytes 8 (length v) ++ v)
write-size p z v =
    let size : length ((p ++ z) ++ v) - length (p ++ z) ≡ length v =
      omega (arith, length-append (p ++ z) v) in
    let front : take (length p) ((p ++ z) ++ v) ≡ p =
      rw (append_assoc p z v) (take-append_length p (z ++ v)) in
    rw (size, front, drop-append_length (p ++ z) v) refl

pub collect_str-text : (v : List ℕ) (s : Serializer) → collect_str v s ≡ extend (text v) s
unfolding collect_str extend push_le push_type
collect_str-text v s = same-Serializer _ _ _ _ _ _ refl refl (
    write-size (s.buf ++ (byte DataType.string64 ∷ [])) (le_bytes 8 0) v
    ∙ append_assoc s.buf (byte DataType.string64 ∷ []) (le_bytes 8 (length v) ++ v))
