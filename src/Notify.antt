-- ===== src/Notify.antt =====
-- The notifications of src/core/notificationmanager.cpp. A call takes the manager and returns it; what
-- it emits is added to `trace`, in order, with whether the call held the manager's mutex.
pub mod Removal
pub mod Reach
pub mod Settings
mod Tests
use neo_nect_desktop.Base.{
  ℕ, zero, suc, ◌+◌, ◌*◌, Bool, true, false, ◌&&◌, ◌||◌, not, List, [], ◌∷◌, ◌++◌, Option, none,
  some, if◌then◌else◌, length, take, drop, get_elem?, ltb, ℤ, pos, ltb_ℤ,
}
use neo_nect_desktop.Base.Text
use neo_nect_desktop.Base.Text.{String, ◌==◌, is_empty, starts_with, left, ◌<>◌}
use neo_nect_desktop.Qt.{Qt, Qreal, Variant, VariantMap, value, value_or}

pub record Notification : Type 0 where
  pub id : String
  pub notif_id : String
  pub request_id : String
  pub title : String
  pub body : String
  pub type : String
  pub channel : String
  pub avatar : String
  pub duration : ℤ
  pub timestamp : ℤ

pub data Signal : Type 0 where
  notification_triggered : Notification → Signal
  notification_dismissed : String → Signal
  notifications_cleared unread_count_changed active_notifications_changed : Signal
  notifications_enabled_changed sound_enabled_changed preview_enabled_changed : Signal
  dnd_enabled_changed screen_corner_changed : Signal

pub data Effect : Type 0 where
  emitted : Signal → Bool → Effect
  sound : Effect

-- `stored` is the group of the settings that the manager keeps.
pub record NotificationManager : Type 0 where
  pub notifications_enabled : Bool
  pub sound_enabled : Bool
  pub preview_enabled : Bool
  pub dnd_enabled : Bool
  pub screen_corner : String
  pub unread_count : ℕ
  pub active : List Notification
  pub locked : Bool
  pub stored : VariantMap
  pub trace : List Effect

abbrev pub emit : Signal → NotificationManager → NotificationManager
emit s m = record m { trace = m.trace ++ emitted s m.locked ∷ [] }

abbrev pub lock : NotificationManager → NotificationManager
lock m = record m { locked = true }

abbrev pub unlock : NotificationManager → NotificationManager
unlock m = record m { locked = false }

-- Settings.

unfoldable pub save_settings : NotificationManager → NotificationManager
save_settings m = record m {
  stored =
      ("enabled", Variant.flag m.notifications_enabled)
      ∷ ("sound_enabled", Variant.flag m.sound_enabled)
      ∷ ("preview_enabled", Variant.flag m.preview_enabled)
      ∷ ("dnd_enabled", Variant.flag m.dnd_enabled)
      ∷ ("screen_corner", Variant.text m.screen_corner)
      ∷ [];
}

abbrev pub differ : Bool → Bool → Bool
differ a b = if a then not b else b

unfoldable pub set_notifications_enabled : Bool → NotificationManager → NotificationManager
set_notifications_enabled b m =
    if differ m.notifications_enabled b
    then emit notifications_enabled_changed (save_settings (record m { notifications_enabled = b }))
    else m

unfoldable pub set_sound_enabled : Bool → NotificationManager → NotificationManager
set_sound_enabled b m =
    if differ m.sound_enabled b
    then emit sound_enabled_changed (save_settings (record m { sound_enabled = b }))
    else m

unfoldable pub set_preview_enabled : Bool → NotificationManager → NotificationManager
set_preview_enabled b m =
    if differ m.preview_enabled b
    then emit preview_enabled_changed (save_settings (record m { preview_enabled = b }))
    else m

unfoldable pub set_dnd_enabled : Bool → NotificationManager → NotificationManager
set_dnd_enabled b m =
    if differ m.dnd_enabled b
    then emit dnd_enabled_changed (save_settings (record m { dnd_enabled = b }))
    else m

unfoldable pub set_screen_corner : String → NotificationManager → NotificationManager
set_screen_corner corner m =
    if not (m.screen_corner == corner)
    then emit screen_corner_changed (save_settings (record m { screen_corner = corner }))
    else m

-- The list.

-- removeAt(i)
abbrev pub remove_at : ℕ → List Notification → List Notification
remove_at i xs = take i xs ++ drop (suc i) xs

-- The loop from the last row down: the rows that pass the test are removed, and their ids kept in
-- the order of removal.
unfoldable pub remove_down :
    (Notification → Bool) → ℕ → List Notification → List Notification × List String
remove_down test zero xs = (xs, [])
remove_down test (suc i) xs = elim (get_elem? xs i) [
  | none ↦ remove_down test i xs
  | some n ↦ elim (test n) [
    | true ↦ let rest = remove_down test i (remove_at i xs) in (rest.0, n.id ∷ rest.1)
    | false ↦ remove_down test i xs
  ]
]

-- Whether the count is past the list.
abbrev pub is_past : NotificationManager → Bool
is_past m = ltb (length m.active) m.unread_count

-- The count is cut down to the list.
abbrev pub clamp_unread : NotificationManager → NotificationManager
clamp_unread m = if is_past m then record m { unread_count = length m.active } else m

abbrev pub emit_dismissed : List String → NotificationManager → NotificationManager
emit_dismissed [] m = m
emit_dismissed (id ∷ ids) m = emit_dismissed ids (emit (notification_dismissed id) m)

-- From the locked part on: the count, the signals for the ids, and those for the count and the list.
abbrev pub finish_removal : List String → NotificationManager → NotificationManager
finish_removal ids m =
    let past = is_past m in
    let m = emit_dismissed ids (unlock (clamp_unread m)) in
    let m = if past then emit unread_count_changed m else m in emit active_notifications_changed m

abbrev pub remove_matching : (Notification → Bool) → NotificationManager → NotificationManager
remove_matching test m =
    let m = lock m in
    let removed = remove_down test (length m.active) m.active in
    finish_removal removed.1 (record m { active = removed.0 })

-- The first row with the id is removed.
unfoldable pub remove_first : String → List Notification → List Notification
remove_first id [] = []
remove_first id (n ∷ ns) = if n.notif_id == id || n.id == id then ns else n ∷ remove_first id ns

unfoldable pub dismiss_notification : String → NotificationManager → NotificationManager
dismiss_notification id m =
    if is_empty id
    then m
    else let m = lock m in finish_removal (id ∷ []) (record m { active = remove_first id m.active })

unfoldable pub clear_all : NotificationManager → NotificationManager
clear_all m =
    let m = unlock (record (lock m) { active = []; unread_count = 0 }) in
    emit active_notifications_changed (emit unread_count_changed (emit notifications_cleared m))

unfoldable pub reset_unread_count : NotificationManager → NotificationManager
reset_unread_count m =
    let m = lock m in
    unlock (
      if ltb 0 m.unread_count then emit unread_count_changed (record m { unread_count = 0 }) else m)

-- playNotificationSound: the chime, in a thread of its own.
unfoldable pub play_notification_sound : NotificationManager → NotificationManager
play_notification_sound m =
    if not m.sound_enabled || m.dnd_enabled then m else record m { trace = m.trace ++ sound ∷ [] }

-- s.startsWith(prefix) ? s.mid(n) : s
abbrev pub strip : String → ℕ → String → String
strip prefix n s = if starts_with s prefix then neo_nect_desktop.Base.Text.mid n s else s

unfoldable pub clean_channel : String → String
clean_channel s = strip "#" 1 (strip "dm-" 3 (strip "dms:" 4 s))

-- What a call reads of the clock and of QUuid.
pub record Moment : Type 0 where
  pub now_ms : ℤ
  pub now_s : ℤ
  pub uuid : String

module _ (q : Qt) where
  unfoldable pub load_settings : VariantMap → NotificationManager → NotificationManager
  load_settings settings m = record m {
    notifications_enabled = q.to_bool (value_or (Variant.flag true) "enabled" settings);
    sound_enabled = q.to_bool (value_or (Variant.flag true) "sound_enabled" settings);
    preview_enabled = q.to_bool (value_or (Variant.flag true) "preview_enabled" settings);
    dnd_enabled = q.to_bool (value_or (Variant.flag false) "dnd_enabled" settings);
    screen_corner = q.to_string (value_or (Variant.text "bottom-right") "screen_corner" settings);
  }

  abbrev pub new_notification :
      Moment
      → NotificationManager
      → String
      → String
      → String
      → String
      → String
      → ℤ
      → String
      → Notification
  new_notification now m title body type channel avatar duration request_id =
      let notif_id = "notif_" <> q.number now.now_ms <> "_" <> left 6 now.uuid in
      record {
        id = notif_id;
        notif_id = notif_id;
        request_id = if is_empty request_id then notif_id else request_id;
        title = if is_empty title then "NeoNect" else title;
        body = if m.preview_enabled then body else "New message received";
        type = if is_empty type then "message" else type;
        channel = channel;
        avatar = if is_empty avatar then q.to_upper (left 1 title) else avatar;
        duration = if ltb_ℤ (pos 0) duration then duration else pos 4500;
        timestamp = now.now_s;
      }

  -- The notification is kept, and shown with a sound unless the user does not want to be disturbed.
  abbrev pub push : Notification → NotificationManager → NotificationManager
  push n m =
      let m = lock m in
      let m = record m { active = take 30 (n ∷ m.active); unread_count = m.unread_count + 1 } in
      let m = emit active_notifications_changed (emit unread_count_changed (unlock m)) in
      if not m.dnd_enabled then play_notification_sound (emit (notification_triggered n) m) else m

  unfoldable pub show_notification :
      Moment
      → String
      → String
      → String
      → String
      → String
      → ℤ
      → String
      → NotificationManager
      → NotificationManager
  show_notification now title body type channel avatar duration request_id m =
      if not m.notifications_enabled
      then m
      else push (new_notification now m title body type channel avatar duration request_id) m

  unfoldable pub show_message_notification :
      Moment → String → String → String → String → NotificationManager → NotificationManager
  show_message_notification now sender text channel avatar m =
      let trimmed = q.trimmed sender in
      let clean_sender = if is_empty trimmed then "Someone" else trimmed in
      let target = if is_empty channel then q.to_lower clean_sender else q.to_lower channel in
      let avatar_char = if is_empty avatar then q.to_upper (left 1 clean_sender) else avatar in
      show_notification now clean_sender text "message" target avatar_char (pos 5000) "" m

  abbrev pub is_of_sender : String → String → Notification → Bool
  is_of_sender sender type n =
      let s = if is_empty n.channel then n.title else n.channel in
      q.same_ci s sender && (is_empty type || n.type == type)

  unfoldable pub dismiss_by_sender : String → String → NotificationManager → NotificationManager
  dismiss_by_sender sender type m =
      if is_empty sender then m else remove_matching (is_of_sender sender type) m

  abbrev pub is_of_channel : String → Notification → Bool
  is_of_channel channel n =
      let target = clean_channel (q.trimmed channel) in
      q.same_ci (clean_channel n.channel) target
      || q.same_ci n.title target
      || q.same_ci channel n.channel

  unfoldable pub mark_channel_as_read : String → NotificationManager → NotificationManager
  mark_channel_as_read channel m =
      if is_empty channel then reset_unread_count m else remove_matching (is_of_channel channel) m

  -- A size in bytes; `fixed a b n` is QString::number(a / b, 'f', n).
  unfoldable pub size_text : (ℤ → ℤ → ℕ → String) → ℤ → String
  size_text fixed size =
      if ltb_ℤ size (pos 1024)
      then q.number size <> " B"
      else if ltb_ℤ size (pos 1048576)
      then fixed size (pos 1024) 1 <> " KB"
      else if ltb_ℤ size (pos 1073741824)
      then fixed size (pos 1048576) 1 <> " MB"
      else fixed size (pos 1073741824) 2 <> " GB"

  -- The slot for MessageService::messageAdded.
  unfoldable pub on_message_added :
      Moment
      → (ℤ → ℤ → ℕ → String)
      → String
      → VariantMap
      → NotificationManager
      → NotificationManager
  on_message_added now fixed conversation_id message m =
      let sender = q.to_string (value "senderId" message) in
      let type = q.to_string (value_or (Variant.text "text") "type" message) in
      let avatar = q.to_upper (left 1 sender) in
      let target = strip "dms:" 4 conversation_id in
      let category = q.to_string (value "errorText" message) in
      let media = if is_empty category then "media" else category in
      let size = size_text fixed (q.to_integer (value "fileSize" message)) in
      let file_name = q.to_string (value "fileName" message) in
      if q.to_bool (value "fromMe" message) || is_empty sender || sender == "Anonymous"
      then m
      else if type == "media_request"
      then show_notification now sender
          ("wants to send " <> media <> ": " <> file_name <> " (" <> size <> ")") "media_request"
          target avatar (pos 10000) (q.to_string (value "id" message)) m
      else show_message_notification now sender (q.to_string (value "text" message)) target avatar m
