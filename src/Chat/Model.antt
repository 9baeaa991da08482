-- ===== src/Chat/Model.antt =====
-- The state of src/core/chatmessagemodel.cpp, its roles, and the signals that it emits. A signal is
-- kept with the rows that a view reads when it is called.
use neo_nect_desktop.Base.{
  ℕ, suc, Bool, List, [], ◌∷◌, Option, none, some, if◌then◌else◌, get_elem?, modify,
}
use neo_nect_desktop.Base.Text.{String, ◌==◌}
use neo_nect_desktop.Qt.{Variant, VariantMap, flag, int, real, list, invalid}
use neo_nect_desktop.Chat.Item.{MessageItem}

pub data Role : Type 0 where
  text from_me sender_name sender_avatar first_in_block last_in_block first_unread message_id : Role
  message_type media_url file_name file_size duration waveform status error_text timestamp : Role
  transfer_progress transfer_bytes : Role

pub data Signal : Type 0 where
  begin_insert_rows end_insert_rows begin_remove_rows end_remove_rows : ℕ → ℕ → Signal
  begin_reset_model end_reset_model : Signal
  data_changed : ℕ → ℕ → List Role → Signal
  count_changed can_fetch_more_changed is_loading_more_changed : Signal

pub record Event : Type 0 where
  pub signal : Signal
  pub rows : List MessageItem

-- `trace` holds the signals emitted so far, the last one first.
pub record ChatMessageModel : Type 0 where
  pub items : List MessageItem
  pub active_conversation_id : String
  pub can_fetch_more : Bool
  pub is_loading_more : Bool
  pub trace : List Event

abbrev pub emit : Signal → ChatMessageModel → ChatMessageModel
emit s m = record m { trace = record { signal = s; rows = m.items } ∷ m.trace }

-- The first row with an id.
unfoldable pub find_from : ℕ → String → List MessageItem → Option ℕ
find_from i id [] = none
find_from i id (x ∷ xs) = if x.id == id then some i else find_from (suc i) id xs

abbrev pub find_row : String → ChatMessageModel → Option ℕ
find_row id m = find_from 0 id m.items

-- m_items[i] changed in place, and dataChanged(i, i, roles).
abbrev pub change_row :
    ℕ → (MessageItem → MessageItem) → List Role → ChatMessageModel → ChatMessageModel
change_row i f roles m = emit (data_changed i i roles) (record m { items = modify i f m.items })

-- A loop over the rows from the i-th one, `rest`: the rows of which `test` holds are changed in place.
unfoldable pub change_rows :
    (ℕ → MessageItem → Bool)
    → (ℕ → MessageItem → MessageItem)
    → List Role
    → ℕ
    → List MessageItem
    → ChatMessageModel
    → ChatMessageModel
change_rows test f roles i [] m = m
change_rows test f roles i (x ∷ rest) m =
    change_rows test f roles (suc i) rest (if test i x then change_row i (f i) roles m else m)

-- data(index, role)
unfoldable pub role_of : Role → MessageItem → Variant
role_of Role.text x = Variant.text x.text
role_of from_me x = flag x.from_me
role_of sender_name x = Variant.text x.sender_name
role_of sender_avatar x = Variant.text x.sender_avatar
role_of first_in_block x = flag x.is_first_in_block
role_of last_in_block x = flag x.is_last_in_block
role_of first_unread x = flag x.is_first_unread
role_of message_id x = Variant.text x.id
role_of message_type x = Variant.text x.message_type
role_of media_url x = Variant.text x.media_url
role_of file_name x = Variant.text x.file_name
role_of file_size x = int x.file_size
role_of duration x = int x.duration
role_of waveform x = list x.waveform
role_of status x = Variant.text x.status
role_of error_text x = Variant.text x.error_text
role_of timestamp x = int x.timestamp
role_of transfer_progress x = real x.transfer_progress
role_of transfer_bytes x = int x.transfer_bytes

unfoldable pub data_of : ℕ → Role → ChatMessageModel → Variant
unfolding role_of
data_of i role m = elim (get_elem? m.items i) [ none ↦ invalid | some x ↦ role_of role x ]

message_map : MessageItem → VariantMap
message_map x =
    ("messageId", Variant.text x.id)
    ∷ ("text", Variant.text x.text)
    ∷ ("fromMe", flag x.from_me)
    ∷ ("senderName", Variant.text x.sender_name)
    ∷ ("senderAvatar", Variant.text x.sender_avatar)
    ∷ ("messageType", Variant.text x.message_type)
    ∷ ("mediaUrl", Variant.text x.media_url)
    ∷ ("fileName", Variant.text x.file_name)
    ∷ ("fileSize", int x.file_size)
    ∷ ("duration", int x.duration)
    ∷ ("waveform", list x.waveform)
    ∷ ("status", Variant.text x.status)
    ∷ ("errorText", Variant.text x.error_text)
    ∷ ("timestamp", int x.timestamp)
    ∷ []

message_of : String → List MessageItem → VariantMap
message_of id [] = []
message_of id (x ∷ xs) = if x.id == id then message_map x else message_of id xs

unfoldable pub get_message_by_id : String → ChatMessageModel → VariantMap
unfolding message_of message_map
get_message_by_id id m = message_of id m.items
