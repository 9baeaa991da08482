-- ===== src/Socket/Frame/RoundTrip.antt =====
-- `processFrames` on the bytes that `sendFrame` writes.
use native.Mathlib.Nat.{add_assoc}
use mathlib.Core.List.{append_assoc}
use mathlib.Core.Path.{◌≡⟨◌⟩◌, ◌∎}
use neo_nect_desktop.Base.Xor.{bit_xor-bit_xor}
use neo_nect_desktop.Base.{
  ℕ, suc, ◌+◌, ◌-◌, ◌/◌, ◌%◌, ◌^◌, ◌≤◌, ◌<◌, ◌≡◌, refl, sym, ap, ◌∙◌, true, List, [], ◌∷◌, ◌++◌,
  some, arith, length, take, drop, pos, length-append, drop-length-add-append, take-length-append,
  drop-length-append,
}
use neo_nect_desktop.Socket.Frame.{
  Header, to_int, mid, remove, mask_from, length_bytes, size_bytes, encode, read_length, extended,
  with_mask, read_header, total_len, payload_of, next_frame,
}

pub to_int-of_lt : (n : ℕ) → n < 2 ^ 31 → to_int n ≡ pos n
unfolding to_int
to_int-of_lt n h = ground arith

-- Masking twice by the same mask gives the bytes back.
mask_from-mask_from :
    (i : ℕ) (mask bytes : List ℕ) → mask_from i mask (mask_from i mask bytes) ≡ bytes
unfolding mask_from
mask_from-mask_from i mask [] = refl
mask_from-mask_from i mask (byte ∷ bytes) =
    rw (bit_xor-bit_xor, mask_from-mask_from (i + 1) mask bytes)

length-mask_from : (i : ℕ) (mask bytes : List ℕ) → length (mask_from i mask bytes) ≡ length bytes
unfolding mask_from
length-mask_from i mask [] = refl
length-mask_from i mask (byte ∷ bytes) = ap suc (length-mask_from (i + 1) mask bytes)

read_length-length_bytes : (size : ℕ) → size < 2 ^ 64 → read_length 0 (length_bytes 8 size) ≡ size
unfolding read_length length_bytes
read_length-length_bytes size h = omega arith

module _ (m0 m1 m2 m3 : ℕ) where
  abbrev mask : List ℕ
  mask = m0 ∷ m1 ∷ m2 ∷ m3 ∷ []

  header_small :
      (op size : ℕ) (body : List ℕ)
      → op < 16
      → size ≤ 125
      → read_header ((128 + op % 16) ∷ (128 + size % 128) ∷ m0 ∷ m1 ∷ m2 ∷ m3 ∷ body)
        ≡ some (record { opcode = op; masked = true; payload_len = size; header_len = 6 })
  unfolding read_header extended with_mask
  header_small op size body h k = ground arith

  header_medium :
      (op size : ℕ) (body : List ℕ)
      → op < 16
      → size ≤ 65535
      → read_header
          ((128 + op % 16) ∷ (128 + 126) ∷ size / 256 % 256 ∷ size % 256 ∷ m0 ∷ m1 ∷ m2 ∷ m3 ∷ body)
        ≡ some (record { opcode = op; masked = true; payload_len = size; header_len = 8 })
  unfolding read_header extended with_mask
  header_medium op size body h k = ground arith

  header_large :
      (op size : ℕ) (body : List ℕ)
      → op < 16
      → size < 2 ^ 64
      → read_header
          ((128 + op % 16) ∷ (128 + 127) ∷ length_bytes 8 size ++ m0 ∷ m1 ∷ m2 ∷ m3 ∷ body)
        ≡ some (record { opcode = op; masked = true; payload_len = size; header_len = 14 })
  unfolding read_header extended with_mask length_bytes
  header_large op size body h k = ground (arith, read_length-length_bytes size k)

  abbrev after : (bytes rest : List ℕ) → List ℕ
  after bytes rest = mask_from 0 mask bytes ++ rest

  abbrev buffer : (front bytes rest : List ℕ) → List ℕ
  buffer front bytes rest = front ++ m0 ∷ m1 ∷ m2 ∷ m3 ∷ after bytes rest

  length-buffer :
      (front bytes rest : List ℕ)
      → length (buffer front bytes rest) ≡ length front + 4 + length bytes + length rest
  length-buffer front bytes rest = omega (
    arith,
    length-append front (m0 ∷ m1 ∷ m2 ∷ m3 ∷ after bytes rest),
    length-append (mask_from 0 mask bytes) rest,
    length-mask_from 0 mask bytes,
  )

  drop-buffer :
      (front bytes rest : List ℕ)
      → drop (length front + 4) (buffer front bytes rest) ≡ after bytes rest
  drop-buffer front bytes rest =
      drop-length-add-append front (m0 ∷ m1 ∷ m2 ∷ m3 ∷ after bytes rest) 4

  remove-buffer :
      (front bytes rest : List ℕ)
      → drop (length front + 4 + length bytes) (buffer front bytes rest) ≡ rest
  remove-buffer front bytes rest =
      drop (length front + 4 + length bytes) (buffer front bytes rest)
      ≡⟨ ap (λ n. drop n (buffer front bytes rest)) (add_assoc (length front) 4 (length bytes)) ⟩
        drop (length front + (4 + length bytes)) (buffer front bytes rest)
      ≡⟨ drop-length-add-append front _ (4 + length bytes) ⟩
        drop (4 + length bytes) (m0 ∷ m1 ∷ m2 ∷ m3 ∷ after bytes rest)
      ≡⟨ drop-length-add-append mask (after bytes rest) (length bytes) ⟩
        drop (length bytes) (after bytes rest)
      ≡⟨ ap (λ n. drop n (after bytes rest)) (sym (length-mask_from 0 mask bytes)) ⟩
        drop (length (mask_from 0 mask bytes)) (after bytes rest)
      ≡⟨ drop-length-append (mask_from 0 mask bytes) rest ⟩ rest ∎

  payload-buffer :
      (front bytes rest : List ℕ)
      → mid (buffer front bytes rest) (length front + 4) (pos (length bytes))
        ≡ mask_from 0 mask bytes
  unfolding mid
  payload-buffer front bytes rest = rw drop-buffer (
      ap (λ n. take n (after bytes rest)) (sym (length-mask_from 0 mask bytes))
      ∙ take-length-append (mask_from 0 mask bytes) rest)

  mask-buffer :
      (front bytes rest : List ℕ)
      → take 4 (drop (length front + 4 - 4) (buffer front bytes rest)) ≡ mask
  mask-buffer front bytes rest =
      let e : length front + 4 - 4 ≡ length front = omega arith in
      rw (e, drop-length-append front (m0 ∷ m1 ∷ m2 ∷ m3 ∷ after bytes rest))

  abbrev header : (front bytes : List ℕ) → ℕ → Header
  header front bytes op = record {
    opcode = op;
    masked = true;
    payload_len = length bytes;
    header_len = length front + 4;
  }

  payload_of-buffer :
      (front bytes rest : List ℕ) (op : ℕ)
      → length bytes < 2 ^ 31
      → payload_of (buffer front bytes rest) (header front bytes op) ≡ bytes
  unfolding payload_of
  payload_of-buffer front [] rest op h = refl
  payload_of-buffer front (b ∷ bs) rest op h = ground (
    arith,
    to_int-of_lt (length (b ∷ bs)) h,
    payload-buffer front (b ∷ bs) rest,
    mask-buffer front (b ∷ bs) rest,
    mask_from-mask_from 0 mask (b ∷ bs),
  )

  -- A header that is read off the bytes before the mask makes the frame, and leaves what follows it.
  next_frame-of_header :
      (front bytes rest : List ℕ) (op : ℕ)
      → read_header (buffer front bytes rest) ≡ some (header front bytes op)
      → length front + 4 + length bytes < 2 ^ 31
      → next_frame (buffer front bytes rest) ≡ some (record { opcode = op; payload = bytes }, rest)
  unfolding next_frame total_len remove
  next_frame-of_header front bytes rest op e h = ground (
    arith,
    e,
    length-buffer front bytes rest,
    payload_of-buffer front bytes rest op (omega arith),
    to_int-of_lt (length front + 4 + length bytes) h,
    remove-buffer front bytes rest,
  )

  read_header-size_bytes :
      (op : ℕ) (bytes rest : List ℕ)
      → op < 16
      → length bytes < 2 ^ 31
      → let front = (128 + op % 16) ∷ size_bytes (length bytes) in
        (read_header (buffer front bytes rest) ≡ some (header front bytes op)) × (length front ≤ 10)
  unfolding size_bytes
  read_header-size_bytes op bytes rest h k = ground (
    arith,
    header_small op (length bytes) (after bytes rest) h,
    header_medium op (length bytes) (after bytes rest) h,
    header_large op (length bytes) (after bytes rest) h,
  )

  encode-buffer :
      (op : ℕ) (bytes rest : List ℕ)
      → encode op mask bytes ++ rest
        ≡ buffer ((128 + op % 16) ∷ size_bytes (length bytes)) bytes rest
  unfolding encode
  encode-buffer op bytes rest =
      ap (◌∷◌ (128 + op % 16))
        (append_assoc (size_bytes (length bytes)) (mask ++ mask_from 0 mask bytes) rest)

  -- The loop reads back each frame that the client writes with a mask of four bytes, opcode and
  -- payload, and leaves the bytes that follow it, for an opcode below 16 and a payload of less than
  -- 2^31 - 14 bytes.
  pub next_frame-encode :
      (op : ℕ) (bytes rest : List ℕ)
      → op < 16
      → length bytes < 2 ^ 31 - 14
      → next_frame (encode op mask bytes ++ rest)
        ≡ some (record { opcode = op; payload = bytes }, rest)
  next_frame-encode op bytes rest h k =
      let (e, l) = read_header-size_bytes op bytes rest h (omega arith) in
      rw (encode-buffer op bytes rest) (
        next_frame-of_header ((128 + op % 16) ∷ size_bytes (length bytes)) bytes rest op e
          (omega arith))
