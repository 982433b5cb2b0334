-- ===== src/Frames.antt =====
-- The frames of src/protocol.rs: a length of four bytes, the highest first, and a body in CBOR. The
-- message type is a parameter, and a stream is the bytes that it will deliver.
mod Tests
use nexus_auth.Prelude.{
  ℕ, ◌+◌, ◌*◌, ◌/◌, ◌%◌, ◌≤◌, ◌<◌, ◌≡◌, refl, ap, subst, ◌∙◌, Bool, true, false, List, [], ◌∷◌,
  ◌++◌, Text, Bytes, Result, ok, err, ◌>>=◌, map_err, length, length-append, take, drop, ltb,
  if◌then◌else◌, arith, Result-cases, inl, inr,
}
use nexus_auth.Storage.Types.{Codec, IsFaithful}

abbrev pub max_frame : ℕ
max_frame = 16777216

-- `FrameError`; the only error of reading a stream in memory is that it ends.
pub data FrameError : Type 0 where
  unexpected_eof : FrameError
  too_large : ℕ → FrameError
  encode decode : Text → FrameError

-- `(n as u32).to_be_bytes()`
unfoldable pub u32_be : ℕ → Bytes
u32_be n = (n / 16777216 % 256) ∷ (n / 65536 % 256) ∷ (n / 256 % 256) ∷ (n % 256) ∷ []

-- `u32::from_be_bytes`, of four bytes
unfoldable pub from_u32_be : Bytes → ℕ
from_u32_be (a ∷ b ∷ c ∷ d ∷ rest) = a * 16777216 + b * 65536 + c * 256 + d
from_u32_be (a ∷ b ∷ c ∷ []) = 0
from_u32_be (a ∷ b ∷ []) = 0
from_u32_be (a ∷ []) = 0
from_u32_be [] = 0

-- `read_exact` of `n` bytes: they, and what is left.
unfoldable pub read_exact : ℕ → Bytes → Result FrameError (Bytes × Bytes)
read_exact n stream =
    if ltb (length stream) n then err unexpected_eof else ok (take n stream, drop n stream)

module _ {M : Type 0} (codec : Codec M) where
  unfoldable pub encode_frame : M → Result FrameError Bytes
  unfolding u32_be
  encode_frame msg = elim (codec.to_cbor msg) [
    | err e ↦ err (encode e)
    | ok body ↦
        if ltb max_frame (length body)
        then err (too_large (length body))
        else ok (u32_be (length body) ++ body)
  ]

  unfoldable pub decode_frame : Bytes → Result FrameError M
  decode_frame body =
      if ltb max_frame (length body)
      then err (too_large (length body))
      else map_err decode (codec.from_cbor body)

  -- What follows the length.
  unfoldable pub read_body : ℕ → Bytes → Result FrameError (M × Bytes)
  unfolding read_exact decode_frame
  read_body len stream =
      if ltb max_frame len then err (too_large len) else elim (read_exact len stream) [
        | err e ↦ err e
        | ok (body, left) ↦ elim (decode_frame body) [ err e ↦ err e | ok msg ↦ ok (msg, left) ]
      ]

  unfoldable pub read_frame : Bytes → Result FrameError (M × Bytes)
  unfolding read_exact from_u32_be read_body
  read_frame stream = elim (read_exact 4 stream) [
    | err e ↦ err e
    | ok (head, rest) ↦ read_body (from_u32_be head) rest
  ]

take-length : (xs ys : Bytes) → take (length xs) (xs ++ ys) ≡ xs
take-length [] ys = refl
take-length (x ∷ xs) ys = ap (λ (l : Bytes). x ∷ l) (take-length xs ys)

drop-length : (xs ys : Bytes) → drop (length xs) (xs ++ ys) ≡ ys
drop-length [] ys = refl
drop-length (x ∷ xs) ys = drop-length xs ys

read_exact-append : (xs ys : Bytes) → read_exact (length xs) (xs ++ ys) ≡ ok (xs, ys)
unfolding read_exact
read_exact-append xs ys = ground (arith, length-append xs ys, take-length xs ys, drop-length xs ys)

length-u32_be : (n : ℕ) → length (u32_be n) ≡ 4
unfolding u32_be
length-u32_be n = refl

from_u32_be-u32_be : (n : ℕ) → n ≤ max_frame → from_u32_be (u32_be n) ≡ n
unfolding from_u32_be u32_be
from_u32_be-u32_be n h = omega arith

module _ {M : Type 0} (codec : Codec M) where
  encode_frame-shape :
      (m : M) (frame : Bytes)
      → encode_frame codec m ≡ ok frame
      → (body : Bytes) × (codec.to_cbor m ≡ ok body)
        × (length body ≤ max_frame)
        × (frame ≡ u32_be (length body) ++ body)
  unfolding encode_frame
  encode_frame-shape m frame h = elim (Result-cases (codec.to_cbor m)) [
    | inr (e, q) ↦ absurd (ground (arith, q, h))
    | inl (body, q) ↦ (body, q, ground (arith, q, h), ground (arith, q, h))
  ]

  decode_frame-body :
      (m : M) (body : Bytes)
      → IsFaithful codec
      → codec.to_cbor m ≡ ok body
      → length body ≤ max_frame
      → decode_frame codec body ≡ ok m
  unfolding decode_frame
  decode_frame-body m body f h le = ground (arith, f.reads_back m body h)

  read_body-frame :
      (m : M) (body rest : Bytes)
      → IsFaithful codec
      → codec.to_cbor m ≡ ok body
      → length body ≤ max_frame
      → read_body codec (length body) (body ++ rest) ≡ ok (m, rest)
  unfolding read_body
  read_body-frame m body rest f h le =
      ground (arith, read_exact-append body rest, decode_frame-body m body f h le)

  refused_length :
      (n : ℕ) (rest : Bytes) → max_frame < n → read_body codec n rest ≡ err (too_large n)
  unfolding read_body
  refused_length n rest h = ground (arith, h)

  read_frame-head :
      (head rest : Bytes)
      → length head ≡ 4
      → read_frame codec (head ++ rest) ≡ read_body codec (from_u32_be head) rest
  unfolding read_frame
  read_frame-head head rest h =
      let four : read_exact 4 (head ++ rest) ≡ ok (head, rest) =
        subst (λ n. read_exact n (head ++ rest) ≡ ok (head, rest)) h
          (read_exact-append head rest) in
      ground (arith, four)

  read_frame-body :
      (n : ℕ) (body : Bytes)
      → n ≤ max_frame
      → read_frame codec (u32_be n ++ body) ≡ read_body codec n body
  read_frame-body n body h =
      read_frame-head (u32_be n) body (length-u32_be n)
      ∙ ap (λ l. read_body codec l body) (from_u32_be-u32_be n h)

  -- Let what CBOR writes of a message read back. A message that is encoded as a frame is read back
  -- whatever follows it in the stream, and the rest of the stream is left.
  pub read_frame-encode_frame :
      (m : M) (frame rest : Bytes)
      → IsFaithful codec
      → encode_frame codec m ≡ ok frame
      → read_frame codec (frame ++ rest) ≡ ok (m, rest)
  unfolding u32_be
  read_frame-encode_frame m frame rest f h =
      let (body, q, le, shape) = encode_frame-shape m frame h in
      ap (λ b. read_frame codec (b ++ rest)) shape
      ∙ read_frame-body (length body) (body ++ rest) le
      ∙ read_body-frame m body rest f q le

  -- A frame whose four bytes of length claim more than 16 MiB is refused as too large by those
  -- bytes alone, whatever follows them.
  pub read_frame-too_large :
      (head rest : Bytes)
      → length head ≡ 4
      → max_frame < from_u32_be head
      → read_frame codec (head ++ rest) ≡ err (too_large (from_u32_be head))
  read_frame-too_large head rest h lt =
      read_frame-head head rest h ∙ refused_length (from_u32_be head) rest lt
