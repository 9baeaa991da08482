-- ===== src/Notify/Tests.antt =====
-- Runs and instances of the theorems about the notifications.
use neo_nect_desktop.Base.{◌≡◌, refl, true, false, [], ◌∷◌, pos, arith}
use neo_nect_desktop.Qt.Samples.{plain_qt}
use neo_nect_desktop.Notify.{
  Notification, NotificationManager, Moment, show_notification, dismiss_by_sender, save_settings,
  load_settings,
}
use neo_nect_desktop.Notify.Removal.{dismiss_by_sender-without}
use neo_nect_desktop.Notify.Reach.{Inv, here, next, shows, Reach-bounded}
use neo_nect_desktop.Notify.Settings.{Reads, load_settings-save_settings}

abbrev fresh : NotificationManager
fresh = record {
  notifications_enabled = true;
  sound_enabled = true;
  preview_enabled = true;
  dnd_enabled = false;
  screen_corner = "bottom-right";
  unread_count = 0;
  active = [];
  locked = false;
  stored = [];
  trace = [];
}

abbrev noon : Moment
noon = record { now_ms = pos 12000; now_s = pos 12; uuid = "abcdefgh" }

abbrev from_ann : Notification
from_ann = record {
  id = "a";
  notif_id = "a";
  request_id = "a";
  title = "ann";
  body = "hi";
  type = "message";
  channel = "ann";
  avatar = "A";
  duration = pos 5000;
  timestamp = pos 12;
}

abbrev from_bob : Notification
from_bob = record from_ann { id = "b"; notif_id = "b"; title = "bob"; channel = "bob" }

abbrev two : NotificationManager
two = record fresh { unread_count = 2; active = from_ann ∷ from_bob ∷ [] }

dismiss_by_sender-without_example :
    ((dismiss_by_sender plain_qt "ann" "" two).active ≡ from_bob ∷ [])
    × ((dismiss_by_sender plain_qt "ann" "" two).unread_count ≡ 1)
dismiss_by_sender-without_example = dismiss_by_sender-without plain_qt "ann" "" two refl

fresh-Inv : Inv fresh
fresh-Inv = record { bound = omega arith; free = refl; signals = tt }

Reach-bounded_example :
    Inv (show_notification plain_qt noon "ann" "hi" "" "ann" "" (pos 0) "" fresh)
Reach-bounded_example =
    Reach-bounded plain_qt fresh
      (show_notification plain_qt noon "ann" "hi" "" "ann" "" (pos 0) "" fresh) fresh-Inv
      (next here (shows noon "ann" "hi" "" "ann" "" (pos 0) "" fresh))

plain_qt-Reads : Reads plain_qt
plain_qt-Reads = record { flags = λ b. refl; texts = λ s. refl }

load_settings-save_settings_example :
    load_settings plain_qt (save_settings (record fresh { dnd_enabled = true })).stored two
    ≡ record two { dnd_enabled = true }
load_settings-save_settings_example =
    load_settings-save_settings plain_qt plain_qt-Reads (record fresh { dnd_enabled = true }) two
