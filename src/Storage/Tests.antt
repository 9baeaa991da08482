-- ===== src/Storage/Tests.antt =====
-- Runs and instances of the theorems about the table of messages.
use neo_nect_desktop.Base.{◌≡◌, refl, true, [], pos, arith, some, none, ◌≤ℤ◌}
use neo_nect_desktop.Qt.Samples.{plain_qt}
use neo_nect_desktop.Chat.Item.{to_millis}
use neo_nect_desktop.Storage.Message.{Message, sent, status_code}
use neo_nect_desktop.Storage.Repository.{
  SqlMessageRepositoryWorker, do_save_message, do_get_message_by_id, saved_timestamp, Transaction,
}
use neo_nect_desktop.Storage.Saved.{Reads, IsInt, stored, do_get_message_by_id-do_save_message}

abbrev note : Message
note = record {
  id = "n1";
  server_id = pos 4;
  conversation_id = "dms:ann";
  sender_id = "ann";
  type = "text";
  text = "hello";
  media_url = "";
  file_name = "";
  file_size = pos 0;
  duration = pos 0;
  waveform = [];
  status = sent;
  error_text = "";
  timestamp = pos 1700000000000;
}

abbrev blank : SqlMessageRepositoryWorker
blank = record { is_open = true; messages = []; before = none }

late : pos 100000000000 ≤ℤ saved_timestamp (pos 5) (pos 1700000000000)
unfolding saved_timestamp to_millis
late = omega arith

plain_qt-Reads : Reads plain_qt
plain_qt-Reads = record {
  texts = λ s. refl;
  integers = λ z. refl;
  ints = λ z h. refl;
  blobs = λ b. refl;
}

status_bounds : IsInt (status_code sent)
unfolding status_code
status_bounds = (omega arith, omega arith)

do_get_message_by_id-do_save_message_example :
    do_get_message_by_id plain_qt true
      (pos 6)
      "n1"
      (do_save_message plain_qt true (pos 5) note blank).1
    ≡ some (stored plain_qt (pos 5) note)
do_get_message_by_id-do_save_message_example =
    do_get_message_by_id-do_save_message plain_qt (pos 5) (pos 6) note blank plain_qt-Reads refl
      (omega arith, omega arith) status_bounds late

abbrev working : Transaction
working = record { begins = true; commits = true; rolls_back = true }
