-- ===== src/Socket/Client/Overflow.antt =====
-- The end of the loop of `processFrames`.
use neo_nect_desktop.Base.{ℕ, zero, suc, ◌≡◌, refl, ◌≢◌, List, none, arith}
use neo_nect_desktop.Socket.Frame.{Header, Frame, payload_of}
use neo_nect_desktop.Socket.Frame.Stream.{LengthIsZero, next_frame-LengthIsZero}
use neo_nect_desktop.Socket.State.{Network, WebSocketClient}
use neo_nect_desktop.Socket.Client.{dispatch, process_frames}

module _ (n : Network) where
  dispatch_keeps_buffer :
      (f : Frame) (c : WebSocketClient)
      → f.opcode ≢ 8
      → (dispatch n f c).read_buffer ≡ c.read_buffer
  unfolding dispatch
  dispatch_keeps_buffer f c e = ground arith

  -- With a header at the front of the buffer whose length and payload length are 2^64 together, and
  -- that is no close frame, the loop never ends: it runs through any fuel.
  pub process_frames-LengthIsZero :
      (fuel : ℕ) (c : WebSocketClient) (b : List ℕ) (h : Header)
      → c.read_buffer ≡ b
      → LengthIsZero b h
      → h.opcode ≢ 8
      → process_frames n fuel c ≡ none
  unfolding process_frames
  process_frames-LengthIsZero zero c b h same z k = refl
  process_frames-LengthIsZero (suc fuel) c b h same z k =
      rw (same, next_frame-LengthIsZero b h z, process_frames)
        (process_frames-LengthIsZero fuel _ b h
          (dispatch_keeps_buffer (record { opcode = h.opcode; payload = payload_of b h })
            (record c { read_buffer = b }) k)
          z k)
