-- ===== src/Relay.antt =====
-- The relay service of src/services/relayservice.cpp: its state, and what it calls. A method or a
-- slot takes the service and returns it; signals, requests to the server and files that are written
-- are added to `log`, in order. The signals of the WebSocket client, whose calls these methods make,
-- are handed over by calls of their own.
pub mod Session
pub mod Send
pub mod Packet
pub mod Receive
pub mod Keeps
pub mod Items
pub mod Once
pub mod Reports
pub mod Expired
pub mod Delivered
pub mod Samples
mod Tests
use neo_nect_desktop.Base.{ℕ, Bool, List, [], ◌∷◌, ◌++◌, ℤ, Option}
use neo_nect_desktop.Base.Hash.{Hash}
use neo_nect_desktop.Base.Json.{Members}
use neo_nect_desktop.Base.Text.{String}
use neo_nect_desktop.Crypto.{Bytes}
use neo_nect_desktop.Messaging.{Platform}
use neo_nect_desktop.Socket.State.{WebSocketClient}
use neo_nect_desktop.Storage.Message.{Message}

-- What the services call of src/storage/isettingsrepository.h, with values of S as the settings.
pub record ISettingsRepository (S : Type 0) : Type 0 where
  pub profile : S → String
  pub auth_token : S → String
  pub username : S → String
  pub device_id : S → String
  pub public_key : S → String
  pub display_name : S → String
  pub avatar_url : S → String
  pub set_device_id : String → S → S
  pub set_public_key : String → S → S
  pub set_peer_display_name : String → String → S → S
  pub set_peer_avatar_url : String → String → S → S
  pub clear_session : S → S

-- What a callback of a request holds.
pub data Callback : Type 0 where
  no_answer poll_answer : Callback
  send_answer : String → String → Callback

pub data Effect : Type 0 where
  server_connected server_disconnected device_registration_requested : Effect
  session_unauthorized : String → Effect
  secure_message_transmitted : String → Bool → Effect
  message_transmission_status : String → String → Bool → String → Effect
  incoming_domain_message_received : Message → Effect
  incoming_domain_messages_received : List Message → Effect
  incoming_friend_packet : Message → Effect
  peer_avatar_updated : String → String → Effect
  post : String → Bytes → Callback → Effect
  get : String → List (String × String) → Callback → Effect
  set_auth_token : String → Effect
  write_file : String → Bytes → Effect

-- `is_polling` is whether the poll timer runs, `master` the key of the crypto service.
pub record RelayService (S : Type 0) : Type 0 where
  pub is_polling : Bool
  pub is_polling_active : Bool
  pub is_ws_connected : Bool
  pub retry_401_count : ℕ
  pub processed_message_ids : List ℤ
  pub ws_client : WebSocketClient
  pub settings : S
  pub master : Bytes
  pub base_url : String
  pub log : List Effect

-- The libraries that the service calls, besides those of the message service.
pub record Web : Type 0 where
  pub platform : Platform
  pub open platform use *
  -- QJsonDocument(object).toJson(Compact), and fromJson(bytes).object() of an object
  pub to_json : Members → Bytes
  pub of_json : Bytes → Option Members
  -- QString::fromLatin1(bytes.toBase64()), and QByteArray::fromBase64(text.toLatin1())
  pub to_base64 : Bytes → String
  pub of_base64 : String → Bytes
  pub to_utf8 : String → Bytes
  pub from_utf8 : Bytes → String
  -- text.contains(part, Qt::CaseInsensitive)
  pub contains_ci : String → String → Bool
  -- the bytes of a file that exists and can be opened, and whether one can be written
  pub read_file : String → Option Bytes
  pub can_write : String → Bool
  -- QFileInfo(path).fileName(), and QUrl::fromLocalFile(path).toString()
  pub name_of : String → String
  pub url_of : String → String
  -- QStandardPaths::writableLocation(QStandardPaths::AppDataLocation)
  pub data_location : String

module _ {S : Type 0} where
  abbrev pub emit : Effect → RelayService S → RelayService S
  emit e s = record s { log = s.log ++ e ∷ [] }
