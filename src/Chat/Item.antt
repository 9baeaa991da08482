-- ===== src/Chat/Item.antt =====
-- A row of the chat model: `MessageItem` of src/core/chatmessagemodel.h, and the functions of
-- src/core/chatmessagemodel.cpp that make one.
use neo_nect_desktop.Base.{
  Bool, true, false, ◌&&◌, ◌||◌, not, List, [], ◌∷◌, if◌then◌else◌, ℤ, pos, ◌*ℤ◌, ltb_ℤ,
}
use neo_nect_desktop.Base.Text.{String, ◌==◌, is_empty, ends_with, left}
use neo_nect_desktop.Qt.{Qt, Qreal, VariantMap, value, value_or, contains, Variant}

pub record MessageItem : Type 0 where
  pub id : String
  pub text : String
  pub from_me : Bool
  pub sender_name : String
  pub sender_avatar : String
  pub message_type : String
  pub media_url : String
  pub file_name : String
  pub file_size : ℤ
  pub duration : ℤ
  pub waveform : List ℤ
  pub status : String
  pub error_text : String
  pub timestamp : ℤ
  pub is_first_in_block : Bool
  pub is_last_in_block : Bool
  pub is_first_unread : Bool
  pub transfer_progress : Qreal
  pub transfer_bytes : ℤ

abbrev pub no_progress : Qreal
no_progress = record { num = pos 0; den = 1 }

-- target.endsWith(a) || target.endsWith(b) || ...
ends_with_any : String → List String → Bool
ends_with_any target [] = false
ends_with_any target (suffix ∷ suffixes) = ends_with target suffix || ends_with_any target suffixes

-- Below 100000000000 a positive timestamp is in seconds.
unfoldable pub to_millis : ℤ → ℤ
to_millis t = if ltb_ℤ (pos 0) t && ltb_ℤ t (pos 100000000000) then t *ℤ pos 1000 else t

-- The timestamp of a row, given the clock.
unfoldable pub row_timestamp : ℤ → ℤ → ℤ
unfolding to_millis
row_timestamp now t = let ms = to_millis t in if ltb_ℤ (pos 0) ms then ms else now

module _ (q : Qt) where
  unfoldable pub detect_media_type : String → String → String → String
  unfolding ends_with_any ends_with
  detect_media_type media_url file_name fallback_type =
      let target = q.to_lower (if is_empty file_name then media_url else file_name) in
      if ends_with_any target
        (".png" ∷ ".jpg" ∷ ".jpeg" ∷ ".webp" ∷ ".gif" ∷ ".bmp" ∷ ".svg" ∷ ".ico" ∷ ".tiff" ∷ [])
      then "image"
      else if ends_with_any target
          (".mp4" ∷ ".webm" ∷ ".mov" ∷ ".mkv" ∷ ".avi" ∷ ".m4v" ∷ ".flv" ∷ ".wmv" ∷ ".3gp" ∷ [])
      then "video"
      else if ends_with_any target
          (".mp3" ∷ ".wav" ∷ ".ogg" ∷ ".flac" ∷ ".m4a" ∷ ".aac" ∷ ".opus" ∷ ".wma" ∷ [])
      then "audio"
      else if is_empty fallback_type
      then "file"
      else fallback_type

  -- The type of a row that carries a file, where the given type does not say what the file is.
  unfoldable pub resolve_type : String → String → String → String
  resolve_type type media_url file_name =
      if (type == "file" || type == "text" || is_empty type)
        && (not (is_empty media_url) || not (is_empty file_name))
      then detect_media_type media_url file_name type
      else type

  -- The error text of a row: a media request carries the kind of its file there.
  unfoldable pub resolve_error : String → String → String → String → String
  resolve_error error_text type media_url file_name =
      if is_empty error_text && type == "media_request"
      then detect_media_type media_url file_name "file"
      else error_text

  -- The first of two keys, if its text is not empty.
  abbrev text_or : String → String → VariantMap → String
  text_or first second map =
      if contains first map && not (is_empty (q.to_string (value first map)))
      then q.to_string (value first map)
      else q.to_string (value second map)

  -- map.contains(first) ? map.value(first) : map.value(second, "text")
  abbrev type_or : String → String → VariantMap → String
  type_or first second map =
      if contains first map
      then q.to_string (value first map)
      else q.to_string (value_or (Variant.text "text") second map)

  unfoldable pub parse_variant_map : ℤ → VariantMap → MessageItem
  unfolding row_timestamp resolve_type resolve_error
  parse_variant_map now map =
      let sender = text_or "senderId" "senderName" map in
      let media_url = q.to_string (value "mediaUrl" map) in
      let file_name = q.to_string (value "fileName" map) in
      let type = resolve_type (type_or "type" "messageType" map) media_url file_name in
      record {
        id = text_or "id" "messageId" map;
        text = q.to_string (value "text" map);
        from_me = q.to_bool (value "fromMe" map);
        sender_name = sender;
        sender_avatar = if is_empty sender then "" else q.to_upper (left 1 sender);
        message_type = type;
        media_url = media_url;
        file_name = file_name;
        file_size = q.to_integer (value "fileSize" map);
        duration = q.to_int (value "duration" map);
        waveform = q.to_list (value "waveform" map);
        status = q.to_string (value_or (Variant.text "sent") "status" map);
        error_text = resolve_error (q.to_string (value "errorText" map)) type media_url file_name;
        timestamp = row_timestamp now (q.to_integer (value "timestamp" map));
        is_first_in_block = true;
        is_last_in_block = true;
        is_first_unread = false;
        transfer_progress = q.to_real (value_or (Variant.real no_progress) "transferProgress" map);
        transfer_bytes = q.to_integer (value_or (Variant.int (pos 0)) "transferBytes" map);
      }
