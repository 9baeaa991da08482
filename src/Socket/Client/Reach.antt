-- ===== src/Socket/Client/Reach.antt =====
-- The client among its environment: its user, the socket's signals and the reconnect timer, in any
-- order, and what holds after any history.
use neo_nect_desktop.Base.{
  ℕ, zero, suc, ◌+◌, ◌≡◌, refl, ◌≢◌, ◌⊎◌, inl, inr, true, false, List, none, some, arith,
  Option-cases, Bool-cases, ◌==◌, [], subst, sym, if◌then◌else◌, length, take, ◌&&◌,
}
use neo_nect_desktop.Base.Text.{String}
use neo_nect_desktop.Socket.Frame.{Frame, next_frame}
use neo_nect_desktop.Socket.State.{
  Network, WebSocketClient, WebSocketState, SocketState, set_state, on_socket_disconnected,
  state_value, contains, first_line, on_socket_error,
}
use neo_nect_desktop.Socket.Client.{
  send_frame, send_text_message, send_ping, abort, disconnect_from_host, connect_socket, begin_open,
  open_connection, begin_close, close, perform_handshake, on_socket_connected, dispatch,
  process_frames, header_end, process_handshake, process_incoming_data, on_socket_ready_read,
  on_reconnect_timer,
}

pub data Step (n : Network) : WebSocketClient → WebSocketClient → Type 0 where
  opens :
      (c : WebSocketClient) (url device token : String)
      → Step n c (open_connection n url device token c)
  closes : (c : WebSocketClient) → Step n c (close n c)
  sends_text : (c : WebSocketClient) (text : String) → Step n c (send_text_message n text c)
  sends_ping : (c : WebSocketClient) (bytes : List ℕ) → Step n c (send_ping n bytes c)
  socket_connects :
      (c : WebSocketClient)
      → c.socket ≡ SocketState.connecting
      → Step n c (on_socket_connected n (record c { socket = SocketState.connected }))
  socket_reads :
      (c d : WebSocketClient) (bytes : List ℕ)
      → (c.socket ≡ SocketState.connected) ⊎ (c.socket ≡ SocketState.closing)
      → on_socket_ready_read n bytes c ≡ some d
      → Step n c d
  socket_disconnects :
      (c : WebSocketClient)
      → c.socket ≢ SocketState.unconnected
      → Step n c (on_socket_disconnected (record c { socket = SocketState.unconnected }))
  socket_fails : (c : WebSocketClient) (error : String) → Step n c (on_socket_error error c)
  timer_fires :
      (c : WebSocketClient) (ms : ℕ)
      → c.timer ≡ some ms
      → Step n c (on_reconnect_timer n (record c { timer = none }))

pub data Reach (n : Network) (c : WebSocketClient) : WebSocketClient → Type 0 where
  here : Reach n c c
  next : {d e : WebSocketClient} → Reach n c d → Step n d e → Reach n c e

-- QAbstractSocket reports the end of a connection that it aborts.
pub record AbortNotifies (n : Network) : Type 0 where
  pub when_connected : n.abort_notifies SocketState.connected ≡ true
  pub when_closing : n.abort_notifies SocketState.closing ≡ true

pub record Inv (c : WebSocketClient) : Type 0 where
  -- A retry is scheduled only while the user wants a connection.
  pub timed : (c.timer ≡ none) ⊎ (c.should_be_connected ≡ true)
  -- Frames are read only over a socket on which the handshake was made.
  pub handshaken :
      (c.handshake_complete ≡ false)
      ⊎ (((c.state ≡ WebSocketState.connected) ⊎ (c.state ≡ WebSocketState.closing))
          × ((c.socket ≡ SocketState.connected) ⊎ (c.socket ≡ SocketState.closing)))

on_socket_disconnected-Inv :
    (c : WebSocketClient)
    → (c.timer ≡ none) ⊎ (c.should_be_connected ≡ true)
    → Inv (on_socket_disconnected c)
unfolding on_socket_disconnected
on_socket_disconnected-Inv c h = ground arith

module _ (n : Network) (law : AbortNotifies n) where
  open_connection-Inv :
      (c : WebSocketClient) (url device token : String)
      → Inv c
      → Inv (open_connection n url device token c)
  unfolding open_connection begin_open abort connect_socket set_state on_socket_disconnected
  open_connection-Inv c url device token v = ground arith

  disconnect_from_host-Inv : (c : WebSocketClient) → Inv c → Inv (disconnect_from_host n c)
  unfolding disconnect_from_host on_socket_disconnected
  disconnect_from_host-Inv c v = ground arith

  send_frame-Inv :
      (opcode : ℕ) (bytes : List ℕ) (c : WebSocketClient)
      → Inv c
      → Inv (send_frame n opcode bytes c)
  send_frame-Inv opcode bytes c v = ground arith

  close-Inv : (c : WebSocketClient) → Inv c → Inv (close n c)
  unfolding close begin_close abort set_state disconnect_from_host on_socket_disconnected
  close-Inv c v = ground arith

  dispatch-Inv : (f : Frame) (c : WebSocketClient) → Inv c → Inv (dispatch n f c)
  unfolding dispatch
  dispatch-Inv f c v = elim (Bool-cases (f.opcode == 1)) [
    | inl text ↦ rw (text, dispatch) (record { timed = v.timed; handshaken = v.handshaken })
    | inr other ↦ elim (Bool-cases (f.opcode == 8)) [
      | inl closes' ↦
          rw (other, closes', dispatch) (disconnect_from_host-Inv _ (send_frame-Inv 8 [] c v))
      | inr other' ↦ elim (Bool-cases (f.opcode == 9)) [
        | inl ping ↦ rw (other, other', ping, dispatch) (send_frame-Inv 10 f.payload c v)
        | inr rest ↦ rw (other, other', rest, dispatch) v
      ]
    ]
  ]

  process_frames-Inv :
      (fuel : ℕ) (c : WebSocketClient) {d : WebSocketClient}
      → Inv c
      → process_frames n fuel c ≡ some d
      → Inv d
  unfolding process_frames
  process_frames-Inv zero c v e = absurd (cc)
  process_frames-Inv (suc fuel) c {d} v e = elim (Option-cases (next_frame c.read_buffer)) [
    | inl waits ↦ let same : c ≡ d = ground arith in subst Inv same v
    | inr ((f, rest), got) ↦
        process_frames-Inv fuel (dispatch n f (record c { read_buffer = rest }))
          (dispatch-Inv f _ (record { timed = v.timed; handshaken = v.handshaken })) (ground arith)
  ]

  process_handshake-Inv :
      (c : WebSocketClient)
      → Inv c
      → (c.socket ≡ SocketState.connected) ⊎ (c.socket ≡ SocketState.closing)
      → Inv (process_handshake n c)
  unfolding process_handshake set_state
  process_handshake-Inv c v s = elim (Option-cases (header_end n c.read_buffer)) [
    | inl waits ↦ rw (waits, process_handshake) v
    | inr ((ends, taken), found) ↦
        let line = n.trimmed (first_line (n.from_utf8 (take ends c.read_buffer))) in
        elim (Bool-cases (contains line "101")) [
          | inl upgraded ↦
              rw (found, process_handshake, upgraded)
                (record { timed = ground arith; handshaken = ground arith })
          | inr refused ↦
              rw (found, process_handshake, refused)
                (disconnect_from_host-Inv _ (record { timed = v.timed; handshaken = v.handshaken }))
        ]
  ]

  process_incoming_data-Inv :
      (c : WebSocketClient) {d : WebSocketClient}
      → Inv c
      → (c.socket ≡ SocketState.connected) ⊎ (c.socket ≡ SocketState.closing)
      → process_incoming_data n c ≡ some d
      → Inv d
  unfolding process_incoming_data
  process_incoming_data-Inv c {d} v s e =
      let c1 = if c.handshake_complete then c else process_handshake n c in
      let v1 : Inv c1 = elim (Bool-cases c.handshake_complete) [
        | inl done ↦ subst (λ b. Inv (if b then c else process_handshake n c)) (sym done) v
        | inr not_yet ↦
            subst (λ b. Inv (if b then c else process_handshake n c)) (sym not_yet)
              (process_handshake-Inv c v s)
      ] in
      elim (Bool-cases c1.handshake_complete) [
        | inl done ↦ process_frames-Inv (length c1.read_buffer + 1) c1 v1 (rw done at e)
        | inr not_yet ↦ let same : c1 ≡ d = ground (arith, e, not_yet) in subst Inv same v1
      ]

  Step-Inv : {c d : WebSocketClient} → Step n c d → Inv c → Inv d
  unfolding on_socket_connected perform_handshake set_state on_socket_ready_read on_reconnect_timer
      on_socket_error
  Step-Inv (opens c url device token) v = open_connection-Inv c url device token v
  Step-Inv (closes c) v = close-Inv c v
  Step-Inv (sends_text c text) v = send_frame-Inv 1 (n.to_utf8 text) c v
  Step-Inv (sends_ping c bytes) v = send_frame-Inv 9 bytes c v
  Step-Inv (socket_connects c s) v = ground arith
  Step-Inv (socket_reads c d bytes s e) v =
      process_incoming_data-Inv _ (record { timed = v.timed; handshaken = v.handshaken }) s e
  Step-Inv (socket_disconnects c s) v = on_socket_disconnected-Inv _ v.timed
  Step-Inv (socket_fails c error) v = record { timed = v.timed; handshaken = v.handshaken }
  Step-Inv (timer_fires c ms t) v =
      elim (Bool-cases
        (c.should_be_connected && state_value c.state == state_value WebSocketState.disconnected)) [
          | inl retry ↦
              let opened =
                open_connection-Inv (record c { timer = none }) c.server_url c.device_id c.token
                  (record { timed = inl refl; handshaken = v.handshaken }) in
              rw (retry, on_reconnect_timer)
                (record { timed = opened.timed; handshaken = opened.handshaken })
          | inr idle ↦
              rw (idle, on_reconnect_timer) (record { timed = inl refl; handshaken = v.handshaken })
        ]

  -- Whatever the user, the socket and the timer do, a retry is scheduled only while the user wants a
  -- connection, and the handshake counts as complete only while the client and its socket are
  -- connected or closing, if this held at the start, and an abort tells the client that the socket is
  -- disconnected.
  pub Reach-Inv : {c d : WebSocketClient} → Inv c → Reach n c d → Inv d
  Reach-Inv v here = v
  Reach-Inv v (next r s) = Step-Inv s (Reach-Inv v r)
