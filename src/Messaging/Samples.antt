-- ===== src/Messaging/Samples.antt =====
-- A concrete platform, a signed-in message service, and messages for tests.
use neo_nect_desktop.Base.{pos, false, [], none, map, pos_part}
use neo_nect_desktop.Messaging.{MessageService, Platform, Stamp, blank_message}
use neo_nect_desktop.Storage.Message.{Message, pending}

abbrev pub plain_platform : Platform
plain_platform = record {
  windows = false;
  local_file = λ url. none;
  file_size = λ path. none;
  json_of = map pos_part;
  array_of = map pos;
  scale = λ f n. pos 0;
}

abbrev pub signed_in : MessageService
signed_in = record {
  current_user_id = "ann";
  is_invisible = false;
  outgoing_messages = [];
  pending_media_requests = [];
  received_media_requests = [];
  transfers = record { active = []; running = []; next = 0 };
  log = [];
}

abbrev pub first_stamp : Stamp
first_stamp = record { uuid = "u1"; now = pos 100000000001 }

abbrev pub second_stamp : Stamp
second_stamp = record { uuid = "u2"; now = pos 100000000002 }

abbrev pub request : Message
request = record blank_message {
  id = "r1";
  conversation_id = "dms:bob";
  sender_id = "ann";
  type = "media_request";
  media_url = "file:///cat.png";
  file_name = "cat.png";
  error_text = "image";
  status = pending;
}

abbrev pub acceptance : Message
acceptance = record blank_message {
  id = "m9";
  conversation_id = "dms:bob";
  sender_id = "bob";
  type = "media_accept";
  text = "r1";
}

abbrev pub picture : Message
picture = record blank_message {
  id = "m1";
  conversation_id = "dms:bob";
  sender_id = "bob";
  type = "image";
  file_size = pos 900;
}
