-- ===== src/Messaging/Rows.antt =====
-- determineFileSize and MessageService::domainToVariantMap of src/services/messageservice.cpp.
use neo_nect_desktop.Base.{
  Bool, ◌&&◌, not, [], ◌∷◌, ℤ, pos, ltb_ℤ, Option, none, some, if◌then◌else◌,
}
use neo_nect_desktop.Base.Text.{String, ◌==◌, starts_with, is_empty, mid}
use neo_nect_desktop.Qt.{Qt, Qreal, Variant, VariantMap}
use neo_nect_desktop.Messaging.{Platform}
use neo_nect_desktop.Storage.Message.{
  Message, MessageStatus, sending, sent, failed, seen, pending, accepted, declined, other, below,
}

-- 0.05 and 1.0
abbrev pub first_progress : Qreal
first_progress = record { num = pos 1; den = 20 }

abbrev pub full : Qreal
full = record { num = pos 1; den = 1 }

abbrev local_file_or : String → Option String → String
local_file_or missing none = missing
local_file_or missing (some path) = path

abbrev strip_scheme : String → String
strip_scheme url =
    if starts_with url "file:///"
    then mid 8 url
    else if starts_with url "file://"
    then mid 7 url
    else url

-- The path of a file's URL; on Windows without the slash before a drive.
unfoldable pub local_path : Platform → String → String
local_path p url =
    let path = local_file_or (strip_scheme url) (p.local_file url) in
    if p.windows && starts_with path "/" && starts_with (mid 2 path) ":" then mid 1 path else path

abbrev size_or_zero : Option ℤ → ℤ
size_or_zero none = pos 0
size_or_zero (some n) = n

unfoldable pub determine_file_size : Platform → String → ℤ → ℤ
determine_file_size p media_url provided =
    if ltb_ℤ (pos 0) provided
    then provided
    else if is_empty media_url
    then pos 0
    else size_or_zero (p.file_size (local_path p media_url))

-- The size that a transfer shows, where none is known.
abbrev pub total_size : Message → ℤ
total_size msg = if ltb_ℤ (pos 0) msg.file_size then msg.file_size else pos 2500000

-- The switch has no case for another value.
abbrev pub status_entry : MessageStatus → VariantMap
status_entry sending = ("status", Variant.text "sending") ∷ []
status_entry sent = ("status", Variant.text "sent") ∷ []
status_entry failed = ("status", Variant.text "failed") ∷ []
status_entry seen = ("status", Variant.text "seen") ∷ []
status_entry pending = ("status", Variant.text "pending") ∷ []
status_entry accepted = ("status", Variant.text "accepted") ∷ []
status_entry declined = ("status", Variant.text "declined") ∷ []
status_entry (other n) = []
status_entry (below n) = []

abbrev pub is_sending : MessageStatus → Bool
is_sending sending = Bool.true
is_sending _ = Bool.false

abbrev pub is_transferring : Message → Bool
is_transferring msg = is_sending msg.status && not (msg.type == "text")

unfoldable pub domain_to_variant_map : Qt → Platform → String → Message → VariantMap
domain_to_variant_map q p user msg =
    ("id", Variant.text msg.id)
    ∷ ("messageId", Variant.text msg.id)
    ∷ ("conversationId", Variant.text msg.conversation_id)
    ∷ ("senderId", Variant.text msg.sender_id)
    ∷ ("fromMe", Variant.flag (q.to_lower msg.sender_id == q.to_lower user))
    ∷ ("type", Variant.text msg.type)
    ∷ ("messageType", Variant.text msg.type)
    ∷ ("text", Variant.text msg.text)
    ∷ ("mediaUrl", Variant.text msg.media_url)
    ∷ ("fileName", Variant.text msg.file_name)
    ∷ ("fileSize", Variant.int msg.file_size)
    ∷ ("duration", Variant.int msg.duration)
    ∷ ("waveform", Variant.list (p.array_of msg.waveform))
    ∷ ("transferProgress", Variant.real (if is_transferring msg then first_progress else full))
    ∷ (
      "transferBytes",
      Variant.int
          (if is_transferring msg then p.scale first_progress (total_size msg) else msg.file_size),
    )
    ∷ ("errorText", Variant.text msg.error_text)
    ∷ ("timestamp", Variant.int msg.timestamp)
    ∷ status_entry msg.status
