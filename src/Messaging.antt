-- ===== src/Messaging.antt =====
-- The message service of src/services/messageservice.cpp: its state and what it calls. A method or a
-- slot takes the service and returns it; signals, and requests to the repository with what their
-- callbacks hold, are added to `log`, in order.
pub mod Rows
pub mod Transfers
pub mod Send
pub mod Requests
pub mod Receive
pub mod Delivery
pub mod Pointers
pub mod Keeps
pub mod Finish
pub mod Log
pub mod Batches
pub mod Offers
pub mod Statuses
pub mod History
pub mod Store
pub mod Stored
pub mod ChatRows
pub mod Samples
mod Tests
pub mod Calls
pub mod Reach
use neo_nect_desktop.Base.{
  ℕ, Bool, true, false, List, [], ◌∷◌, ◌++◌, ℤ, pos, Option, if◌then◌else◌, ◌||◌,
}
use neo_nect_desktop.Base.Hash.{Hash}
use neo_nect_desktop.Base.Text.{String, ◌==◌}
use neo_nect_desktop.Qt.{Qreal, VariantMap}
use neo_nect_desktop.Storage.Message.{Message, MessageStatus, sent}

-- A running QTimer, by its address, with what the lambda at its timeout holds. `request` is empty
-- where the lambda holds no request, and `updates` says whether it looks for the message among the
-- outgoing ones.
pub record Timer : Type 0 where
  pub address : ℕ
  pub step : ℕ
  pub total_steps : ℕ
  pub message_id : String
  pub request : String
  pub conversation : String
  pub total : ℤ
  pub updates : Bool

-- m_activeTransfers, the timers that run, and the next unused address.
pub record Timers : Type 0 where
  pub active : Hash ℕ
  pub running : List Timer
  pub next : ℕ

-- What a callback of saveMessageAsync holds.
pub data SaveCallback : Type 0 where
  of_message : Message → Bool → SaveCallback
  of_request of_payload : Message → SaveCallback

pub data Effect : Type 0 where
  -- signals
  conversation_loaded more_messages_loaded : String → List VariantMap → Effect
  message_added : String → VariantMap → Effect
  message_updated : String → String → String → String → Effect
  message_removed : String → String → Effect
  media_transfer_progress : String → String → Qreal → ℤ → ℤ → Effect
  peer_typing_status_changed : String → String → Bool → Effect
  transmit_message : Message → Effect
  -- a queued call that emits message_added
  queued_message_added : String → VariantMap → Effect
  -- requests to the repository
  save_message : Message → SaveCallback → Effect
  save_messages : List Message → Effect
  update_message_status : String → MessageStatus → String → Effect
  answer_request : String → MessageStatus → String → Effect
  mark_messages_seen : String → String → String → Effect
  delete_message : String → Effect
  get_messages get_more_messages : String → ℤ → ℤ → Effect
  get_message_by_id : String → Effect

pub record MessageService : Type 0 where
  pub current_user_id : String
  pub is_invisible : Bool
  pub outgoing_messages : Hash Message
  pub pending_media_requests : Hash Message
  pub received_media_requests : Hash Message
  pub transfers : Timers
  pub log : List Effect

-- What a call reads of QUuid and of the clock.
pub record Stamp : Type 0 where
  pub uuid : String
  pub now : ℤ

-- The libraries that the services call.
pub record Platform : Type 0 where
  -- _WIN32
  pub windows : Bool
  -- QUrl(url).toLocalFile(), where isLocalFile()
  pub local_file : String → Option String
  -- QFileInfo(path).size(), where exists() and isFile()
  pub file_size : String → Option ℤ
  -- QJsonDocument(array).toJson(Compact), and the numbers of QJsonDocument::fromJson(bytes).array()
  pub json_of : List ℤ → List ℕ
  pub array_of : List ℕ → List ℤ
  -- static_cast<qint64>(f * n)
  pub scale : Qreal → ℤ → ℤ

abbrev pub emit : Effect → MessageService → MessageService
emit e s = record s { log = s.log ++ e ∷ [] }

-- A Message as its members are initialized.
abbrev pub blank_message : Message
blank_message = record {
  id = "";
  server_id = pos 0;
  conversation_id = "";
  sender_id = "";
  type = "text";
  text = "";
  media_url = "";
  file_name = "";
  file_size = pos 0;
  duration = pos 0;
  waveform = [];
  status = sent;
  error_text = "";
  timestamp = pos 0;
}

-- Assigns id, conversationId, senderId, type and timestamp.
abbrev pub new_message : Stamp → String → String → MessageService → Message
new_message stamp conversation_id type s = record blank_message {
  id = stamp.uuid;
  conversation_id = conversation_id;
  sender_id = s.current_user_id;
  type = type;
  timestamp = stamp.now;
}

abbrev pub is_saved_messages : String → Bool
is_saved_messages id = id == "dms:saved-messages" || id == "saved-messages"

unfoldable pub set_current_user_id : String → MessageService → MessageService
set_current_user_id user_id s =
    if s.current_user_id == user_id then record s { current_user_id = user_id } else record s {
      current_user_id = user_id;
      outgoing_messages = [];
      pending_media_requests = [];
      received_media_requests = [];
    }

abbrev pub set_is_invisible : Bool → MessageService → MessageService
set_is_invisible b s = record s { is_invisible = b }
