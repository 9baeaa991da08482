-- ===== src/Socket/Client/Tests.antt =====
-- Runs and instances of the theorems about the WebSocket client.
use neo_nect_desktop.Base.{◌≤◌, ◌≡◌, refl, inl, inr, false, [], ◌∷◌, none, some, arith, ◌++◌}
use neo_nect_desktop.Socket.Frame.{encode, next_frame}
use neo_nect_desktop.Socket.Frame.RoundTrip.{next_frame-encode}
use neo_nect_desktop.Socket.Frame.Samples.{
  text_frame, text_and_more, text_and_more-Splits, ping-Splits, endless, endless_header,
  endless-LengthIsZero,
}
use neo_nect_desktop.Socket.Client.Samples.{network, online}
use neo_nect_desktop.Socket.State.{WebSocketClient, WebSocketState, SocketState, backoff}
use neo_nect_desktop.Socket.Client.{process_frames, on_socket_ready_read, on_reconnect_timer}
use neo_nect_desktop.Socket.Client.Reads.{
  dispatch_all, on_socket_ready_read-Splits, on_socket_ready_read-append,
}
use neo_nect_desktop.Socket.Client.Overflow.{process_frames-LengthIsZero}
use neo_nect_desktop.Socket.Client.Reach.{here, next, timer_fires, Inv, Reach-Inv}
use neo_nect_desktop.Socket.Client.Retry.{failures, failures-timer}

abbrev lost : WebSocketClient
lost = record online {
  state = WebSocketState.disconnected;
  handshake_complete = false;
  socket = SocketState.unconnected;
  timer = some 1000;
  reconnect_attempts = 1;
}

next_frame-encode_example :
    next_frame (encode 1 (1 ∷ 2 ∷ 3 ∷ 4 ∷ []) (72 ∷ 105 ∷ []) ++ 7 ∷ [])
    ≡ some (record { opcode = 1; payload = 72 ∷ 105 ∷ [] }, 7 ∷ [])
next_frame-encode_example =
    next_frame-encode 1 2 3 4 1 (72 ∷ 105 ∷ []) (7 ∷ []) (omega arith) (omega arith)

failures-timer_example :
    ((failures network 6 lost).timer ≡ some (backoff 6)) × (1000 ≤ backoff 6) × (backoff 6 ≤ 15000)
failures-timer_example =
    failures-timer network 5 1 lost
      (record { wanted = refl; down = refl; socket = refl; attempts_made = refl })

Reach-Inv_example : Inv (on_reconnect_timer network (record lost { timer = none }))
Reach-Inv_example =
    Reach-Inv network (record { when_connected = refl; when_closing = refl })
      (record { timed = inr refl; handshaken = inl refl }) (next here (timer_fires lost 1000 refl))

on_socket_ready_read-append_example :
    (c' : WebSocketClient) × (on_socket_ready_read network text_and_more online ≡ some c')
    × (on_socket_ready_read network (0 ∷ []) c'
        ≡ on_socket_ready_read network (text_and_more ++ 0 ∷ []) online)
on_socket_ready_read-append_example =
    on_socket_ready_read-append network online text_and_more (0 ∷ []) refl text_and_more-Splits
      ping-Splits ((λ e. cc), ((λ e. cc), tt)) (omega arith)

on_socket_ready_read-Splits_example :
    on_socket_ready_read network text_and_more online
    ≡ some (record (dispatch_all network (text_frame ∷ []) online) { read_buffer = 0x89 ∷ [] })
on_socket_ready_read-Splits_example =
    on_socket_ready_read-Splits network online text_and_more refl text_and_more-Splits
      ((λ e. cc), tt) (omega arith)

process_frames-LengthIsZero_example :
    process_frames network 1000 (record online { read_buffer = endless }) ≡ none
process_frames-LengthIsZero_example =
    process_frames-LengthIsZero network 1000 (record online { read_buffer = endless }) endless
      endless_header refl endless-LengthIsZero (λ e. cc)
