-- ===== src/Relay/Packet.antt =====
-- The packet of an incoming message, as processIncomingRelayItem of src/services/relayservice.cpp
-- reads it, with a value for each member that is missing.
use neo_nect_desktop.Base.{Bool, ◌&&◌, ◌||◌, not, List, [], ℤ, pos, if◌then◌else◌}
use neo_nect_desktop.Base.Json.{
  Json, Members, Values, member, has_member, text_of, integer_of, integers_of, no_values,
}
use neo_nect_desktop.Base.Text.{String, ◌==◌, is_empty, ◌<>◌}
use neo_nect_desktop.Chat.Item.{to_millis}
use neo_nect_desktop.Qt.{Qt}
use neo_nect_desktop.Qt
use neo_nect_desktop.Relay.{Web}

pub record Packet : Type 0 where
  pub sender : String
  pub text : String
  pub type : String
  pub media_url : String
  pub file_name : String
  pub display_name : String
  pub category : String
  pub uuid : String
  pub file_size : ℤ
  pub duration : ℤ
  pub timestamp : ℤ
  pub waveform : List ℤ

-- if (object.contains(key)) … = object.value(key).toString()
abbrev pub text_or : String → String → Members → String
text_or otherwise key m = if has_member key m then text_of (member key m) else otherwise

abbrev pub integer_or_zero : String → Members → ℤ
integer_or_zero key m = if has_member key m then integer_of (member key m) else pos 0

-- toArray() of a value that is none is empty.
abbrev elements : Json → Values
elements (Json.array vs) = vs
elements _ = no_values

-- toVariant().toLongLong()
abbrev variant_of : Json → Qt.Variant
variant_of (Json.flag b) = Qt.flag b
variant_of (Json.number z) = Qt.int z
variant_of (Json.text s) = Qt.text s
variant_of _ = Qt.invalid

unfoldable pub read_packet : Qt → String → String → Members → Packet
read_packet q uuid plain m = record {
  sender = text_or "Anonymous" "sender" m;
  text = if has_member "content" m then text_of (member "content" m) else text_or plain "text" m;
  type = text_or "text" "type" m;
  media_url = text_or "" "mediaUrl" m;
  file_name = text_or "" "fileName" m;
  display_name =
      if has_member "displayName" m then q.trimmed (text_of (member "displayName" m)) else "";
  category = text_or "" "mediaType" m;
  uuid = text_or uuid "messageId" m;
  file_size = integer_or_zero "fileSize" m;
  duration = integer_or_zero "duration" m;
  timestamp =
      if has_member "timestamp" m
      then to_millis (q.to_integer (variant_of (member "timestamp" m)))
      else pos 0;
  waveform = if has_member "waveform" m then integers_of (elements (member "waveform" m)) else [];
}

-- A text that is no packet.
abbrev pub plain_packet : String → String → Packet
plain_packet uuid plain = record {
  sender = "Anonymous";
  text = plain;
  type = "text";
  media_url = "";
  file_name = "";
  display_name = "";
  category = "";
  uuid = uuid;
  file_size = pos 0;
  duration = pos 0;
  timestamp = pos 0;
  waveform = [];
}

-- A known sender.
abbrev pub is_named : String → Bool
is_named sender = not (is_empty sender) && not (sender == "Anonymous")

-- The name of a file that is kept.
abbrev pub safe_name : Qt → Web → Packet → String
safe_name q w packet =
    let name = q.trimmed packet.file_name in
    if not (is_empty name)
    then w.name_of name
    else packet.uuid
      <> (if packet.type == "image"
          then ".png"
          else if packet.type == "voice" || packet.type == "audio"
          then ".wav"
          else ".bin")
