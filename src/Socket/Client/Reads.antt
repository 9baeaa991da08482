-- ===== src/Socket/Client/Reads.antt =====
-- `processFrames` and `onSocketReadyRead` against the frames of the byte stream.
use mathlib.Core.List.{append_assoc}
use neo_nect_desktop.Base.{
  subst, ℕ, zero, suc, Option, ◌+◌, ◌≤◌, ◌<◌, ◌^◌, ◌≡◌, refl, ap, sym, ◌∙◌, ◌≢◌, true, List, [],
  ◌∷◌, ◌++◌, none, some, arith, length, length-append, All,
}
use neo_nect_desktop.Socket.Frame.{Frame, next_frame}
use neo_nect_desktop.Socket.Frame.Stream.{
  Takes, Splits, start, round, next_frame-shorter, Splits-append,
}
use neo_nect_desktop.Socket.State.{Network, WebSocketClient}
use neo_nect_desktop.Socket.Client.{
  dispatch, process_frames, process_incoming_data, on_socket_ready_read,
}

abbrev pub NotClose : Frame → Type 0
NotClose f = f.opcode ≢ 8

module _ (n : Network) where
  -- The frames handled one after the other.
  abbrev pub dispatch_all : List Frame → WebSocketClient → WebSocketClient
  dispatch_all [] c = c
  dispatch_all (f ∷ fs) c = dispatch_all fs (dispatch n f c)

  dispatch-buffer :
      (f : Frame) (c : WebSocketClient) (b : List ℕ)
      → NotClose f
      → dispatch n f (record c { read_buffer = b }) ≡ record (dispatch n f c) { read_buffer = b }
  unfolding dispatch
  dispatch-buffer f c b h = ground arith

  dispatch-handshake :
      (f : Frame) (c : WebSocketClient)
      → NotClose f
      → (dispatch n f c).handshake_complete ≡ c.handshake_complete
  unfolding dispatch
  dispatch-handshake f c h = ground arith

  dispatch_all-handshake :
      (fs : List Frame) (c : WebSocketClient)
      → All NotClose fs
      → (dispatch_all fs c).handshake_complete ≡ c.handshake_complete
  dispatch_all-handshake [] c h = refl
  dispatch_all-handshake (f ∷ fs) c h =
      dispatch_all-handshake fs (dispatch n f c) h.1 ∙ dispatch-handshake f c h.0

  dispatch_all-buffer :
      (fs : List Frame) (c : WebSocketClient) (b : List ℕ)
      → All NotClose fs
      → dispatch_all fs (record c { read_buffer = b })
        ≡ record (dispatch_all fs c) { read_buffer = b }
  dispatch_all-buffer [] c b h = refl
  dispatch_all-buffer (f ∷ fs) c b h =
      ap (dispatch_all fs) (dispatch-buffer f c b h.0)
      ∙ dispatch_all-buffer fs (dispatch n f c) b h.1

  dispatch_all-append :
      (fs gs : List Frame) (c : WebSocketClient)
      → dispatch_all (fs ++ gs) c ≡ dispatch_all gs (dispatch_all fs c)
  dispatch_all-append [] gs c = refl
  dispatch_all-append (f ∷ fs) gs c = dispatch_all-append fs gs (dispatch n f c)

  process_frames-Takes :
      (c : WebSocketClient) (fuel : ℕ) {b r : List ℕ} {fs : List Frame}
      → Takes b fs r
      → next_frame r ≡ none
      → length fs < fuel
      → All NotClose fs
      → process_frames n fuel (record c { read_buffer = b })
        ≡ some (record (dispatch_all fs c) { read_buffer = r })
  unfolding process_frames
  process_frames-Takes c zero t w h k = absurd (omega arith)
  process_frames-Takes c (suc fuel) start w h k = rw (w, process_frames)
  process_frames-Takes c (suc fuel) (round {r = r} {f = f} e sane t) w h k =
      rw (e, process_frames, dispatch-buffer f c r k.0)
        (process_frames-Takes (dispatch n f c) fuel t w (omega arith) k.1)

length-Takes :
    {b r : List ℕ} {fs : List Frame}
    → Takes b fs r
    → length b < 2 ^ 31
    → length fs + length r ≤ length b
length-Takes start h = omega arith
length-Takes (round {b = b} e sane t) h = omega (
  arith,
  next_frame-shorter b e sane h,
  length-Takes t (omega (arith, next_frame-shorter b e sane h)),
)

module _ (n : Network) where
  process_incoming_data-Splits :
      (c : WebSocketClient) (b : List ℕ) {r : List ℕ} {fs : List Frame}
      → c.handshake_complete ≡ true
      → Splits b fs r
      → All NotClose fs
      → length b < 2 ^ 31
      → process_incoming_data n (record c { read_buffer = b })
        ≡ some (record (dispatch_all n fs c) { read_buffer = r })
  unfolding process_incoming_data
  process_incoming_data-Splits c b ready (t, w) k small =
      ground
        (arith, process_frames-Takes n c (length b + 1) t w (omega (arith, length-Takes t small)) k)

  -- On an open connection a read handles the complete frames of the buffer in order, keeps the
  -- incomplete rest, and ends, where no length overflows and no frame closes the connection.
  pub on_socket_ready_read-Splits :
      (c : WebSocketClient) (bytes : List ℕ) {r : List ℕ} {fs : List Frame}
      → c.handshake_complete ≡ true
      → Splits (c.read_buffer ++ bytes) fs r
      → All NotClose fs
      → length (c.read_buffer ++ bytes) < 2 ^ 31
      → on_socket_ready_read n bytes c ≡ some (record (dispatch_all n fs c) { read_buffer = r })
  unfolding on_socket_ready_read
  on_socket_ready_read-Splits c bytes ready s k small =
      process_incoming_data-Splits c (c.read_buffer ++ bytes) ready s k small

  All-append-left : (fs gs : List Frame) → All NotClose (fs ++ gs) → All NotClose fs
  All-append-left [] gs h = tt
  All-append-left (f ∷ fs) gs h = (h.0, All-append-left fs gs h.1)

  All-append-right : (fs gs : List Frame) → All NotClose (fs ++ gs) → All NotClose gs
  All-append-right [] gs h = h
  All-append-right (f ∷ fs) gs h = All-append-right fs gs h.1

  -- Two reads have the effect of one read of all their bytes, wherever the bytes are cut, on an open
  -- connection, where no length overflows and no frame closes the connection.
  pub on_socket_ready_read-append :
      (c : WebSocketClient) (first second : List ℕ) {r r' : List ℕ} {fs gs : List Frame}
      → c.handshake_complete ≡ true
      → Splits (c.read_buffer ++ first) fs r
      → Splits (r ++ second) gs r'
      → All NotClose (fs ++ gs)
      → length (c.read_buffer ++ (first ++ second)) < 2 ^ 31
      → (c' : WebSocketClient) × (on_socket_ready_read n first c ≡ some c')
        × (on_socket_ready_read n second c' ≡ on_socket_ready_read n (first ++ second) c)
  on_socket_ready_read-append c first second {r} {r'} {fs} {gs} ready s t k small =
      let b = c.read_buffer in
      let c' = record (dispatch_all n fs c) { read_buffer = r } in
      let set = λ (x : WebSocketClient).
        let y : Option WebSocketClient = some (record x { read_buffer = r' }) in y in
      let ks = All-append-left fs gs k in
      let kt = All-append-right fs gs k in
      let assoc = append_assoc b first second in
      let small' : length ((b ++ first) ++ second) < 2 ^ 31 = rw assoc small in
      let whole : Splits (b ++ (first ++ second)) (fs ++ gs) r' =
        subst (λ x. Splits x (fs ++ gs) r') assoc (Splits-append second s t small') in
      (
        c',
        on_socket_ready_read-Splits c first ready s ks
            (omega (arith, length-append (b ++ first) second)),
        on_socket_ready_read-Splits c' second (dispatch_all-handshake n fs c ks ∙ ready) t kt (
              omega (
                arith,
                length-append r second,
                length-append (b ++ first) second,
                length-Takes s.0 (omega (arith, length-append (b ++ first) second)),
              ))
            ∙ ap set (dispatch_all-buffer n gs (dispatch_all n fs c) r kt)
            ∙ ap set (sym (dispatch_all-append n fs gs c))
            ∙ sym (on_socket_ready_read-Splits c (first ++ second) ready whole k small),
      )
