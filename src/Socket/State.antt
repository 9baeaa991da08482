-- ===== src/Socket/State.antt =====
-- The connection of src/transport/websocketclient.cpp: its fields, and what it uses of Qt's network
-- classes. A slot takes the client and returns it; what it emits, writes and asks of the socket is
-- added to `log`, in order.
use Prim.Native.Char.{code}
use neo_nect_desktop.Base.{
  ℕ, suc, ◌+◌, ◌*◌, ◌^◌, min, Bool, true, false, ◌&&◌, ◌||◌, List, [], ◌∷◌, ◌++◌, Option, none,
  some, ◌==◌, if◌then◌else◌, ℤ,
}
use neo_nect_desktop.Base.Text
use neo_nect_desktop.Base.Text.{String, is_empty}
use neo_nect_desktop.Qt.{Qt}

pub data WebSocketState : Type 0 where
  disconnected connecting handshaking connected closing : WebSocketState

-- The enum's values.
abbrev pub state_value : WebSocketState → ℕ
state_value disconnected = 0
state_value connecting = 1
state_value handshaking = 2
state_value connected = 3
state_value closing = 4

-- QAbstractSocket::SocketState, with the host lookup as a part of connecting.
pub data SocketState : Type 0 where
  unconnected connecting connected closing : SocketState

pub data Effect : Type 0 where
  state_changed : WebSocketState → Effect
  connected disconnected : Effect
  text_message error_occurred : String → Effect
  write : List ℕ → Effect
  connect_to_host : String → ℤ → Bool → Effect
  disconnect_from_host abort : Effect

pub record WebSocketClient : Type 0 where
  pub server_url : String
  pub device_id : String
  pub token : String
  pub state : WebSocketState
  pub should_be_connected : Bool
  pub reconnect_attempts : ℕ
  pub read_buffer : List ℕ
  pub handshake_complete : Bool
  -- m_socket->state(), and the reconnect timer with its interval
  pub socket : SocketState
  pub timer : Option ℕ
  -- numbers drawn of QRandomGenerator::global() so far
  pub draws : ℕ
  pub log : List Effect

-- What the client uses of QUrl, QSslSocket, the text codecs and the random generator.
pub record Network : Type 0 where
  pub qt : Qt
  pub open qt use *
  pub url_is_valid : String → Bool
  pub url_scheme : String → String
  pub url_host : String → String
  pub url_port : String → ℤ
  pub percent_encoded : String → String
  pub to_utf8 : String → List ℕ
  pub from_utf8 : List ℕ → String
  pub to_base64 : List ℕ → String
  pub nonce : ℕ → List ℕ
  pub mask : ℕ → List ℕ
  -- whether abort() and disconnectFromHost() call the disconnected slot before they return
  pub abort_notifies : SocketState → Bool
  pub disconnect_notifies : SocketState → Bool

abbrev pub emit : Effect → WebSocketClient → WebSocketClient
emit e c = record c { log = c.log ++ e ∷ [] }

abbrev pub is_unconnected : SocketState → Bool
is_unconnected unconnected = true
is_unconnected _ = false

abbrev pub is_open : SocketState → Bool
is_open connected = true
is_open _ = false

unfoldable pub set_state : WebSocketState → WebSocketClient → WebSocketClient
set_state new c =
    if state_value c.state == state_value new
    then c
    else emit (state_changed new) (record c { state = new })

-- qMin(1000 * (1 << qMin(attempts, 4)), 15000)
unfoldable pub backoff : ℕ → ℕ
backoff attempts = min (1000 * 2 ^ min attempts 4) 15000

unfoldable pub on_socket_disconnected : WebSocketClient → WebSocketClient
unfolding set_state
on_socket_disconnected c =
    let was_connected = state_value c.state == state_value connected in
    let c1 = set_state disconnected c in
    let c2 = record c1 { handshake_complete = false; read_buffer = [] } in
    let c3 = if was_connected then emit disconnected c2 else c2 in
    if c3.should_be_connected
    then record c3 {
      reconnect_attempts = c3.reconnect_attempts + 1;
      timer = some (backoff c3.reconnect_attempts);
    }
    else c3

unfoldable pub on_socket_error : String → WebSocketClient → WebSocketClient
on_socket_error error_string c = emit (error_occurred error_string) c

-- The position of the first occurrence of a pattern.
unfoldable pub starts_with : List ℕ → List ℕ → Bool
starts_with bytes [] = true
starts_with [] (p ∷ ps) = false
starts_with (b ∷ bs) (p ∷ ps) = b == p && starts_with bs ps

unfoldable pub index_of : List ℕ → List ℕ → Option ℕ
index_of [] pattern = none
index_of (b ∷ bs) pattern =
    if starts_with (b ∷ bs) pattern
    then some 0
    else elim (index_of bs pattern) [ none ↦ none | some i ↦ some (suc i) ]

-- s.contains(t), and s.section("\n", 0, 0)
unfoldable pub contains : String → String → Bool
contains String.[] t = is_empty t
contains (String.◌∷◌ c s) t = Text.starts_with (String.◌∷◌ c s) t || contains s t

unfoldable pub first_line : String → String
first_line String.[] = ""
first_line (String.◌∷◌ c s) = if code c == 10 then "" else String.◌∷◌ c (first_line s)
