-- ===== src/Socket/Frame.antt =====
-- The wire format of src/transport/websocketclient.cpp: `sendFrame`, and one round of the loop of
-- `processFrames`. A byte is a number below 256. `x >> k` and `x & (2^k - 1)` are written as `/` and
-- `%` by a power of two, and `|` of disjoint bits as `+`; `quint64` wraps at 2 ^ 64.
pub mod RoundTrip
pub mod Stream
pub mod Samples
use Prim.Native.Nat.{bit_xor}
use neo_nect_desktop.Base.{
  ℕ, zero, suc, ◌+◌, ◌-◌, ◌*◌, ◌/◌, ◌%◌, ◌^◌, Bool, true, false, List, [], ◌∷◌, ◌++◌, Option, none,
  some, ltb, leb, ◌==◌, if◌then◌else◌, length, get_or, take, drop, ℤ, pos, negsuc,
}

abbrev pub u64_mod : ℕ
u64_mod = 2 ^ 64

-- static_cast<int>(n) of a 64-bit number.
pub to_int : ℕ → ℤ
to_int n = let low = n % 2 ^ 32 in if ltb low (2 ^ 31) then pos low else negsuc (2 ^ 32 - low - 1)

-- QByteArray::mid(at, n): with a negative n, all that follows.
mid : List ℕ → ℕ → ℤ → List ℕ
mid buffer at (pos n) = take n (drop at buffer)
mid buffer at (negsuc n) = drop at buffer

-- QByteArray::remove(0, n): with a negative n, nothing.
remove : List ℕ → ℤ → List ℕ
remove buffer (pos n) = drop n buffer
remove buffer (negsuc n) = buffer

-- The masking loop: byte i is combined with byte i % 4 of the mask.
mask_from : ℕ → List ℕ → List ℕ → List ℕ
mask_from i mask [] = []
mask_from i mask (byte ∷ bytes) =
    bit_xor byte (get_or mask (i % 4) 0) ∷ mask_from (i + 1) mask bytes

-- The eight bytes of the extended length, the highest first: `n` of them are left.
length_bytes : ℕ → ℕ → List ℕ
length_bytes zero size = []
length_bytes (suc n) size = size / 2 ^ (n * 8) % 256 ∷ length_bytes n size

-- The second byte, with the mask bit set, and the extended length.
size_bytes : ℕ → List ℕ
unfolding length_bytes
size_bytes size =
    if leb size 125
    then (128 + size % 128) ∷ []
    else if leb size 65535
    then (128 + 126) ∷ size / 256 % 256 ∷ size % 256 ∷ []
    else (128 + 127) ∷ length_bytes 8 size

-- The bytes that `sendFrame` writes to a connected socket, for a random mask.
pub encode : ℕ → List ℕ → List ℕ → List ℕ
encode opcode mask bytes =
    (128 + opcode % 16) ∷ (size_bytes (length bytes) ++ (take 4 mask ++ mask_from 0 mask bytes))

pub record Header : Type 0 where
  pub opcode : ℕ
  pub masked : Bool
  pub payload_len : ℕ
  pub header_len : ℕ

-- The loop over the eight bytes of an extended length.
read_length : ℕ → List ℕ → ℕ
read_length acc [] = acc
read_length acc (byte ∷ bytes) = read_length (acc * 256 % u64_mod + byte) bytes

-- The guards on an extended length: `none` where the code waits for more data.
extended : List ℕ → ℕ → Option (ℕ × ℕ)
unfolding read_length
extended buffer n =
    if n == 126
    then (if ltb (length buffer) 4
        then none
        else some (get_or buffer 2 0 * 256 + get_or buffer 3 0, 4))
    else if n == 127
    then (if ltb (length buffer) 10
        then none
        else some (read_length 0 (take 8 (drop 2 buffer)), 10))
    else some (n, 2)

with_mask : List ℕ → ℕ → Bool → ℕ × ℕ → Option Header
with_mask buffer opcode masked (payload_len, header_len) =
    if masked
    then (if ltb (length buffer) (header_len + 4)
        then none
        else some (record {
          opcode = opcode;
          masked = true;
          payload_len = payload_len;
          header_len = header_len + 4;
        }))
    else some (record {
      opcode = opcode;
      masked = false;
      payload_len = payload_len;
      header_len = header_len;
    })

pub read_header : List ℕ → Option Header
read_header [] = none
read_header (b0 ∷ []) = none
read_header (b0 ∷ b1 ∷ rest) = elim (extended (b0 ∷ b1 ∷ rest) (b1 % 128)) [
  | none ↦ none
  | some lens ↦ with_mask (b0 ∷ b1 ∷ rest) (b0 % 16) (b1 / 128 % 2 == 1) lens
]

-- headerLen + payloadLen, in 64 bits.
total_len : Header → ℕ
total_len h = (h.header_len + h.payload_len) % u64_mod

pub payload_of : List ℕ → Header → List ℕ
unfolding mid to_int mask_from
payload_of buffer h =
    if ltb 0 h.payload_len
    then (let bytes = mid buffer h.header_len (to_int h.payload_len) in
        if h.masked then mask_from 0 (take 4 (drop (h.header_len - 4) buffer)) bytes else bytes)
    else []

pub record Frame : Type 0 where
  pub opcode : ℕ
  pub payload : List ℕ

-- One round of the loop of `processFrames`, up to the switch: the frame at the front of the buffer
-- and the buffer without it, or `none` where the loop ends.
pub next_frame : List ℕ → Option (Frame × List ℕ)
next_frame buffer = elim (read_header buffer) [
  | none ↦ none
  | some h ↦
      if ltb (length buffer) (total_len h)
      then none
      else some (
        record { opcode = h.opcode; payload = payload_of buffer h },
        remove buffer (to_int (total_len h)),
      )
]
