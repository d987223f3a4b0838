-- ===== src/Life1/Wire/Round.antt =====
-- The round trips of the frames.
use leaf_syncthing_pak.Base.{
  All, length-drop, length-take, ℕ, zero, suc, ◌≤◌, ◌<◌, Bool, true, ◌≡◌, refl, sym, ap, ◌⊎◌, inl,
  inr, some, List, [], ◌∷◌, ◌++◌, length, take, drop, Text, arith, take-append, drop-append,
  length-append, take-append-drop,
}
use leaf_syncthing_pak.Life1.Wire.{
  cut_short, WireError, Decoded, payload, failed, message, Wrote, broken, took, sent, put_uint32,
  get_uint32, encode, decode, read, write_all, write,
}

append_assoc : (xs ys zs : Text) → (xs ++ ys) ++ zs ≡ xs ++ (ys ++ zs)
append_assoc [] ys zs = refl
append_assoc (x ∷ xs) ys zs = ap (λ ws. x ∷ ws) (append_assoc xs ys zs)

pub length-put_uint32 : (n : ℕ) → length (put_uint32 n) ≡ 4
unfolding put_uint32
length-put_uint32 n = refl

-- A frame's parts, with whatever follows it.
take-put_uint32 : (n : ℕ) (rest : Text) → take 4 (put_uint32 n ++ rest) ≡ put_uint32 n
unfolding put_uint32
take-put_uint32 n rest = refl

drop-put_uint32 : (n : ℕ) (rest : Text) → drop 4 (put_uint32 n ++ rest) ≡ rest
unfolding put_uint32
drop-put_uint32 n rest = refl

get_uint32-bound : (n : ℕ) → n ≤ 65536 → get_uint32 (put_uint32 n) ≡ n
unfolding get_uint32 put_uint32
get_uint32-bound n h = omega arith

module _ (valid : Text → Bool) where
  pub encode-payload :
      (m frame : Text)
      → encode valid m ≡ payload frame
      → (frame ≡ put_uint32 (length m) ++ m) × (length m ≤ 65536) × (valid m ≡ true)
  unfolding encode
  encode-payload m frame h = (ground arith, ground arith, ground arith)

  decode-framed :
      (m : Text)
      → length m ≤ 65536
      → valid m ≡ true
      → decode valid (put_uint32 (length m) ++ m) ≡ payload m
  unfolding decode
  decode-framed m short ok =
      rw
        (
          take-put_uint32 (length m) m,
          drop-put_uint32 (length m) m,
          get_uint32-bound (length m) short,
        )
        (ground (arith, length-append (put_uint32 (length m)) m, length-put_uint32 (length m)))

  -- What `Encode` makes of a message, `Decode` takes back.
  decode-encode : (m frame : Text) → encode valid m ≡ payload frame → decode valid frame ≡ payload m
  decode-encode m frame h =
      let (framed, short, ok) = encode-payload m frame h in rw framed (decode-framed m short ok)

  read-framed :
      (m rest : Text)
      → length m ≤ 65536
      → valid m ≡ true
      → read valid (put_uint32 (length m) ++ (m ++ rest)) ≡ (message m, rest)
  unfolding read
  read-framed m rest short ok =
      rw
        (
          take-put_uint32 (length m) (m ++ rest),
          drop-put_uint32 (length m) (m ++ rest),
          get_uint32-bound (length m) short,
          take-append m rest,
          drop-append m rest,
        )
        (ground (
          arith,
          length-append (put_uint32 (length m)) (m ++ rest),
          length-append m rest,
          length-put_uint32 (length m),
        ))

  -- What `Encode` makes of a message, `Read` takes from the front of a stream, and it leaves what
  -- follows.
  pub read-encode :
      (m frame rest : Text)
      → encode valid m ≡ payload frame
      → read valid (frame ++ rest) ≡ (message m, rest)
  read-encode m frame rest h =
      let (framed, short, ok) = encode-payload m frame h in
      rw (framed, append_assoc (put_uint32 (length m)) m rest) (read-framed m rest short ok)

abbrev pub AreBytes : Text → Type 0
AreBytes = All (λ c. c < 256)

put_uint32-get_uint32 :
    (frame : Text)
    → 4 ≤ length frame
    → AreBytes frame
    → put_uint32 (get_uint32 (take 4 frame)) ++ drop 4 frame ≡ frame
unfolding put_uint32 get_uint32
put_uint32-get_uint32 (a ∷ b ∷ c ∷ d ∷ rest) long (ha, (hb, (hc, (hd, _)))) = ground arith
put_uint32-get_uint32 (a ∷ b ∷ c ∷ []) long h = absurd (omega arith)
put_uint32-get_uint32 (a ∷ b ∷ []) long h = absurd (omega arith)
put_uint32-get_uint32 (a ∷ []) long h = absurd (omega arith)
put_uint32-get_uint32 [] long h = absurd (omega arith)

-- However the writer splits the bytes, a `Write` that ends without an error has written the whole
-- frame, once and in order.
write_all-sent :
    (frame : Text) (calls : List Wrote)
    → (write_all frame calls).1 ≡ some sent
    → (write_all frame calls).0 ≡ frame
unfolding write_all
write_all-sent [] calls h = refl
write_all-sent (b ∷ frame) [] h = cc
write_all-sent (b ∷ frame) (broken ∷ calls) h = cc
write_all-sent (b ∷ frame) (took n ∷ calls) h =
    ground (arith, write_all-sent (drop n (b ∷ frame)) calls, take-append-drop n (b ∷ frame))

encode-cases :
    (d : Decoded) → ((e : WireError) × (d ≡ failed e)) ⊎ ((frame : Text) × (d ≡ payload frame))
encode-cases (failed e) = inl (e, refl)
encode-cases (payload frame) = inr (frame, refl)

take-take : (n k : ℕ) (xs : Text) → n ≤ k → take n (take k xs) ≡ take n xs
take-take zero k xs h = refl
take-take (suc n) zero xs h = absurd (omega arith)
take-take (suc n) (suc k) [] h = refl
take-take (suc n) (suc k) (x ∷ xs) h = ap (λ ys. x ∷ ys) (take-take n k xs (omega arith))

module _ (valid : Text → Bool) where
  decode-payload :
      (m frame : Text)
      → decode valid frame ≡ payload m
      → (4 ≤ length frame)
        × (get_uint32 (take 4 frame) ≡ length m)
        × (m ≡ drop 4 frame)
        × (length m ≤ 65536)
        × (valid m ≡ true)
  unfolding decode
  decode-payload m frame h = (
    ground arith,
    ground (arith, length-drop 4 frame),
    ground arith,
    ground (arith, length-drop 4 frame),
    ground arith,
  )

  -- A frame of bytes that `Decode` accepts is the one that `Encode` makes of the message: no two
  -- frames stand for the same message.
  pub encode-decode :
      (m frame : Text)
      → AreBytes frame
      → decode valid frame ≡ payload m
      → encode valid m ≡ payload frame
  unfolding encode
  encode-decode m frame bytes h =
      let (long, declared, is_rest, short, ok) = decode-payload m frame h in
      let whole : put_uint32 (length m) ++ m ≡ frame =
        rw (sym declared, is_rest) (put_uint32-get_uint32 frame long bytes) in
      ground arith

  -- However the writer splits the bytes of a frame, where `Write` ends without an error a `Read` at
  -- the other end returns the message and leaves what follows it.
  pub read-write :
      (m : Text) (calls : List Wrote) (rest : Text)
      → (write valid m calls).1 ≡ some sent
      → read valid ((write valid m calls).0 ++ rest) ≡ (message m, rest)
  unfolding write
  read-write m calls rest h = elim (encode-cases (encode valid m)) [
    | inl (e, failure) ↦ absurd (ground arith)
    | inr (frame, made) ↦
        let whole : (write_all frame calls).0 ≡ frame = write_all-sent frame calls (ground arith) in
        rw (made, write, whole) (read-encode valid m frame rest made)
  ]

  -- A `Read` that finds a frame cut anywhere before its end fails and has used up what was
  -- there.
  pub read-take :
      (m frame : Text) (k : ℕ)
      → encode valid m ≡ payload frame
      → k < length frame
      → read valid (take k frame) ≡ (cut_short, [])
  unfolding read
  read-take m frame k h short =
      let (framed, small, ok) = encode-payload valid m frame h in
      let (long, declared, is_rest, _, _) =
        decode-payload m frame (decode-encode valid m frame h) in
      ground (
        arith,
        take-take 4 k frame,
        length-take k frame,
        length-drop 4 frame,
        length-drop 4 (take k frame),
      )
