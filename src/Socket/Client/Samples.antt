-- ===== src/Socket/Client/Samples.antt =====
-- A network and an open connection for tests.
use neo_nect_desktop.Base.{true, false, [], ◌∷◌, pos, none}
use neo_nect_desktop.Qt.Samples.{plain_qt}
use neo_nect_desktop.Socket.State.{Network, WebSocketClient, WebSocketState, SocketState}

abbrev pub network : Network
network = record {
  qt = plain_qt;
  url_is_valid = λ s. true;
  url_scheme = λ s. "http";
  url_host = λ s. s;
  url_port = λ s. pos 8080;
  percent_encoded = λ s. s;
  to_utf8 = λ s. [];
  from_utf8 = λ b. "text";
  to_base64 = λ b. "key";
  nonce = λ i. [];
  mask = λ i. 1 ∷ 2 ∷ 3 ∷ 4 ∷ [];
  abort_notifies = λ s. true;
  disconnect_notifies = λ s. false;
}

abbrev pub online : WebSocketClient
online = record {
  server_url = "relay";
  device_id = "d";
  token = "t";
  state = WebSocketState.connected;
  should_be_connected = true;
  reconnect_attempts = 0;
  read_buffer = [];
  handshake_complete = true;
  socket = SocketState.connected;
  timer = none;
  draws = 0;
  log = [];
}
