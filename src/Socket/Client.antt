-- ===== src/Socket/Client.antt =====
-- The slots and calls of src/transport/websocketclient.cpp.
mod Reads
mod Overflow
mod Reach
mod Retry
pub mod Samples
mod Tests
use neo_nect_desktop.Base.{
  ℕ, zero, suc, ◌+◌, Bool, true, false, ◌&&◌, ◌||◌, not, List, [], ◌∷◌, Option, none, some, ◌==◌,
  if◌then◌else◌, length, take, drop, ℤ, pos, ltb_ℤ, leb_ℤ,
}
use neo_nect_desktop.Base.Text
use neo_nect_desktop.Base.Text.{String, is_empty, ◌<>◌}
use mathlib.Core.List
use neo_nect_desktop.Socket.Frame.{Frame, encode, next_frame}
use neo_nect_desktop.Socket.State.{
  WebSocketState, SocketState, Effect, WebSocketClient, Network, emit, is_unconnected, is_open,
  state_value, set_state, on_socket_disconnected, index_of, contains, first_line, text_message,
  error_occurred, write, connect_to_host,
}

abbrev port_is : ℤ → ℕ → Bool
port_is port k = not (ltb_ℤ port (pos k)) && not (ltb_ℤ (pos k) port)

module _ (n : Network) where
  abbrev send_frame : ℕ → List ℕ → WebSocketClient → WebSocketClient
  send_frame opcode bytes c =
      if is_open c.socket
      then emit (write (encode opcode (n.mask c.draws) bytes)) (record c { draws = c.draws + 1 })
      else c

  abbrev send_text_message : String → WebSocketClient → WebSocketClient
  send_text_message text c = send_frame 1 (n.to_utf8 text) c

  abbrev send_ping : List ℕ → WebSocketClient → WebSocketClient
  send_ping bytes c = send_frame 9 bytes c

  abbrev send_pong : List ℕ → WebSocketClient → WebSocketClient
  send_pong bytes c = send_frame 10 bytes c

  -- m_socket->abort(): the socket is unconnected at once.
  abort : WebSocketClient → WebSocketClient
  abort c =
      let c1 = emit Effect.abort (record c { socket = SocketState.unconnected }) in
      if n.abort_notifies c.socket then on_socket_disconnected c1 else c1

  -- m_socket->disconnectFromHost(): the socket closes, at once or once its data is written.
  disconnect_from_host : WebSocketClient → WebSocketClient
  disconnect_from_host c =
      if n.disconnect_notifies c.socket
      then on_socket_disconnected
          (emit Effect.disconnect_from_host (record c { socket = SocketState.unconnected }))
      else emit Effect.disconnect_from_host (record c {
        socket = if is_unconnected c.socket then SocketState.unconnected else SocketState.closing;
      })

  -- QUrl url(m_serverUrl), with the fallback to "http://".
  abbrev effective_url : String → String
  effective_url server_url =
      if not (n.url_is_valid server_url) || is_empty (n.url_scheme server_url)
      then "http://" <> server_url
      else server_url

  abbrev is_ssl : String → Bool
  is_ssl url =
      Text.◌==◌ (n.to_lower (n.url_scheme url)) "https"
      || Text.◌==◌ (n.to_lower (n.url_scheme url)) "wss"

  abbrev host_of : String → String
  host_of url = if is_empty (n.url_host url) then "localhost" else n.url_host url

  abbrev port_of : String → ℤ
  port_of url =
      if leb_ℤ (n.url_port url) (pos 0)
      then (if is_ssl url then pos 443 else pos 8080)
      else n.url_port url

  -- The end of `open`: the socket is told where to connect.
  connect_socket : WebSocketClient → WebSocketClient
  connect_socket c =
      let url = effective_url c.server_url in
      emit (connect_to_host (host_of url) (port_of url) (is_ssl url))
        (record c { socket = SocketState.connecting })

  -- The first lines of `open`: the fields that it sets before it touches the socket.
  begin_open : String → String → String → WebSocketClient → WebSocketClient
  begin_open server_url device_id token c = record c {
    server_url = n.trimmed server_url;
    device_id = n.trimmed device_id;
    token = n.trimmed token;
    should_be_connected = true;
    reconnect_attempts = 0;
    timer = none;
  }

  pub open_connection : String → String → String → WebSocketClient → WebSocketClient
  open_connection server_url device_id token c =
      let c1 = begin_open server_url device_id token c in
      let c2 = if is_unconnected c1.socket then c1 else abort c1 in
      let c3 = record c2 { read_buffer = []; handshake_complete = false } in
      if is_empty c3.server_url || is_empty c3.device_id
      then c3
      else connect_socket (set_state WebSocketState.connecting c3)

  begin_close : WebSocketClient → WebSocketClient
  begin_close c = record c {
    should_be_connected = false;
    reconnect_attempts = 0;
    device_id = "";
    token = "";
    timer = none;
  }

  pub close : WebSocketClient → WebSocketClient
  close c =
      let c1 = begin_close c in
      if state_value c1.state == state_value WebSocketState.connected
      then disconnect_from_host (send_frame 8 [] (set_state WebSocketState.closing c1))
      else if is_unconnected c1.socket
      then set_state WebSocketState.disconnected c1
      else abort c1

  -- ~WebSocketClient
  abbrev destroy : WebSocketClient → WebSocketClient
  destroy c =
      let c1 = record c { should_be_connected = false; timer = none } in
      if state_value c1.state == state_value WebSocketState.connected
      then abort (send_frame 8 [] c1)
      else abort c1

  -- Whether the Host and Origin headers name the port.
  abbrev names_port : Bool → ℤ → Bool
  names_port ssl port =
      ltb_ℤ (pos 0) port && (ssl && not (port_is port 443) || not ssl && not (port_is port 80))

  abbrev host_header : String → Bool → ℤ → String
  host_header host ssl port =
      if names_port ssl port
      then (if contains host ":"
          then "[" <> host <> "]:" <> n.number port
          else host <> ":" <> n.number port)
      else host

  abbrev origin_header : String → Bool → ℤ → String
  origin_header host ssl port =
      (if ssl then "https" else "http")
      <> "://"
      <> host
      <> (if names_port ssl port then ":" <> n.number port else "")

  abbrev credentials : String → String
  credentials token =
      if is_empty token
      then ""
      else "Authorization: Bearer " <> token <> "\r\n" <> "Cookie: neonect_sid=" <> token <> "\r\n"

  -- The upgrade request of `performHandshake`.
  upgrade_request : String → String → String → ℕ → String
  upgrade_request server_url device_id token draw =
      let url = effective_url server_url in
      let ssl = is_ssl url in
      "GET /api/v1/relay/ws?device_id="
      <> n.percent_encoded device_id
      <> " HTTP/1.1\r\nHost: "
      <> host_header (host_of url) ssl (n.url_port url)
      <> "\r\nUpgrade: websocket\r\nConnection: Upgrade\r\nOrigin: "
      <> origin_header (host_of url) ssl (n.url_port url)
      <> "\r\nUser-Agent: NeoNectDesktop/1.0\r\nSec-WebSocket-Key: "
      <> n.to_base64 (n.nonce draw)
      <> "\r\nSec-WebSocket-Version: 13\r\n"
      <> credentials token
      <> "\r\n"

  perform_handshake : WebSocketClient → WebSocketClient
  perform_handshake c =
      emit (write (n.to_utf8 (upgrade_request c.server_url c.device_id c.token c.draws)))
        (record c { draws = c.draws + 1 })

  pub on_socket_connected : WebSocketClient → WebSocketClient
  on_socket_connected c = perform_handshake (set_state WebSocketState.handshaking c)

  -- The switch of `processFrames`.
  pub dispatch : Frame → WebSocketClient → WebSocketClient
  dispatch f c =
      if f.opcode == 1
      then emit (text_message (n.from_utf8 f.payload)) c
      else if f.opcode == 8
      then disconnect_from_host (send_frame 8 [] c)
      else if f.opcode == 9
      then send_pong f.payload c
      else c

  -- The loop of `processFrames`, on fuel: `none` where the fuel runs out.
  pub process_frames : ℕ → WebSocketClient → Option WebSocketClient
  process_frames zero c = none
  process_frames (suc fuel) c = elim (next_frame c.read_buffer) [
    | none ↦ some c
    | some (f, rest) ↦ process_frames fuel (dispatch f (record c { read_buffer = rest }))
  ]

  -- The end of the HTTP headers: where they end, and how many bytes they take with the blank line.
  header_end : List ℕ → Option (ℕ × ℕ)
  header_end bytes = elim (index_of bytes (13 ∷ 10 ∷ 13 ∷ 10 ∷ [])) [
    | some i ↦ some (i, i + 4)
    | none ↦ elim (index_of bytes (10 ∷ 10 ∷ [])) [ none ↦ none | some i ↦ some (i, i + 2) ]
  ]

  -- The first half of `processIncomingData`.
  process_handshake : WebSocketClient → WebSocketClient
  process_handshake c = elim (header_end c.read_buffer) [
    | none ↦ c
    | some (ends, taken) ↦
        let line = n.trimmed (first_line (n.from_utf8 (take ends c.read_buffer))) in
        let c1 = record c { read_buffer = drop taken c.read_buffer } in
        if contains line "101"
        then emit Effect.connected (
            set_state WebSocketState.connected
              (record c1 { handshake_complete = true; reconnect_attempts = 0 }))
        else disconnect_from_host (emit (error_occurred ("Handshake failed: " <> line)) c1)
  ]

  -- The loop is given a round for each byte of the buffer, and one more.
  process_incoming_data : WebSocketClient → Option WebSocketClient
  process_incoming_data c =
      let c1 = if c.handshake_complete then c else process_handshake c in
      if c1.handshake_complete then process_frames (length c1.read_buffer + 1) c1 else some c1

  pub on_socket_ready_read : List ℕ → WebSocketClient → Option WebSocketClient
  on_socket_ready_read bytes c =
      process_incoming_data (record c { read_buffer = List.◌++◌ c.read_buffer bytes })

  pub on_reconnect_timer : WebSocketClient → WebSocketClient
  on_reconnect_timer c =
      if c.should_be_connected && state_value c.state == state_value WebSocketState.disconnected
      then record (open_connection c.server_url c.device_id c.token c) {
        reconnect_attempts = c.reconnect_attempts;
      }
      else c
