-- ===== src/Socket/Frame/Samples.antt =====
-- Sample streams, for the tests of the client.
use mathlib.Core.Path.{refl}
use neo_nect_desktop.Base.{ℕ, List, [], ◌∷◌, arith, false}
use neo_nect_desktop.Socket.Frame.{
  Frame, Header, to_int, mid, remove, mask_from, extended, with_mask, read_length, read_header,
  total_len, payload_of, next_frame,
}
use neo_nect_desktop.Socket.Frame.Stream.{Splits, Overflows, start, round, LengthIsZero}

program : Unit {0}
unfolding next_frame read_header extended with_mask read_length total_len payload_of mid remove
    to_int mask_from
program = tt

-- A text frame of one byte, without a mask.
abbrev pub text_frame : Frame
text_frame = record { opcode = 1; payload = 65 ∷ [] }

-- The text frame, and the first byte of the next frame.
abbrev pub text_and_more : List ℕ
text_and_more = 0x81 ∷ 1 ∷ 65 ∷ 0x89 ∷ []

-- An empty ping frame.
abbrev pub ping_frame : Frame
ping_frame = record { opcode = 9; payload = [] }

text_sane : ¬ Overflows text_and_more
unfolding program
text_sane (h, e, big) = ground arith

ping_sane : ¬ Overflows (0x89 ∷ 0 ∷ [])
unfolding program
ping_sane (h, e, big) = ground arith

pub text_and_more-Splits : Splits text_and_more (text_frame ∷ []) (0x89 ∷ [])
unfolding program
text_and_more-Splits = (round refl text_sane start, refl)

pub ping-Splits : Splits (0x89 ∷ 0 ∷ []) (ping_frame ∷ []) []
unfolding program
ping-Splits = (round refl ping_sane start, refl)

-- A text frame whose header announces 2 ^ 64 - 10 bytes.
abbrev pub endless : List ℕ
endless = 0x81 ∷ 127 ∷ 255 ∷ 255 ∷ 255 ∷ 255 ∷ 255 ∷ 255 ∷ 255 ∷ 246 ∷ []

abbrev pub endless_header : Header
endless_header = record {
  opcode = 1;
  masked = false;
  payload_len = 0xfffffffffffffff6;
  header_len = 10;
}

pub endless-LengthIsZero : LengthIsZero endless endless_header
unfolding program
endless-LengthIsZero = (refl, refl)
