-- ===== src/Messaging/ChatRows.antt =====
-- The row of the chat model for a message of the message service: the map that the service emits, as
-- the model reads it.
use neo_nect_desktop.Base.{Bool, true, false, not, List, ◌≡◌, refl, if◌then◌else◌, ℤ}
use neo_nect_desktop.Base.Text.{String, ◌==◌, is_empty, left}
use neo_nect_desktop.Qt.{Qt, Qreal, Variant, invalid, flag, int, real, list, value_or, contains}
use neo_nect_desktop.Chat.Item.{
  MessageItem, parse_variant_map, resolve_type, resolve_error, row_timestamp,
}
use neo_nect_desktop.Storage.Message.{
  Message, MessageStatus, sending, sent, failed, seen, pending, accepted, declined, other, below,
}
use neo_nect_desktop.Messaging.{Platform}
use neo_nect_desktop.Messaging.Rows.{
  domain_to_variant_map, is_transferring, first_progress, full, total_size,
}

-- A variant converts to the value of its own kind, and an invalid one to the empty text.
pub record Converts (q : Qt) : Type 0 where
  pub texts : (s : String) → q.to_string (Variant.text s) ≡ s
  pub flags : (b : Bool) → q.to_bool (flag b) ≡ b
  pub integers : (z : ℤ) → q.to_integer (int z) ≡ z
  pub ints : (z : ℤ) → q.to_int (int z) ≡ z
  pub reals : (x : Qreal) → q.to_real (real x) ≡ x
  pub lists : (l : List ℤ) → q.to_list (list l) ≡ l
  pub missing : q.to_string invalid ≡ ""

abbrev pub status_text : MessageStatus → String
status_text sending = "sending"
status_text sent = "sent"
status_text failed = "failed"
status_text seen = "seen"
status_text pending = "pending"
status_text accepted = "accepted"
status_text declined = "declined"
status_text (other n) = "sent"
status_text (below n) = "sent"

-- The row that a message is shown as.
abbrev pub row_for : Qt → Platform → ℤ → String → Message → MessageItem
row_for q p now user msg =
    let type = resolve_type q msg.type msg.media_url msg.file_name in
    record {
      id = msg.id;
      text = msg.text;
      from_me = q.to_lower msg.sender_id == q.to_lower user;
      sender_name = msg.sender_id;
      sender_avatar = if is_empty msg.sender_id then "" else q.to_upper (left 1 msg.sender_id);
      message_type = type;
      media_url = msg.media_url;
      file_name = msg.file_name;
      file_size = msg.file_size;
      duration = msg.duration;
      waveform = p.array_of msg.waveform;
      status = status_text msg.status;
      error_text = resolve_error q msg.error_text type msg.media_url msg.file_name;
      timestamp = row_timestamp now msg.timestamp;
      is_first_in_block = true;
      is_last_in_block = true;
      is_first_unread = false;
      transfer_progress = if is_transferring msg then first_progress else full;
      transfer_bytes =
          if is_transferring msg then p.scale first_progress (total_size msg) else msg.file_size;
    }

if_same {ℓ} : {A : Type ℓ} (b : Bool) (x : A) → (if b then x else x) ≡ x
if_same true x = refl
if_same false x = refl

if_empty : (s : String) → (if not (is_empty s) then s else "") ≡ s
if_empty String.[] = refl
if_empty (String.◌∷◌ c s) = refl

-- If a variant converts to the value of its own kind, and an invalid one to the empty text, then the
-- chat model makes of the map for a message the row with the message's fields, its status as text,
-- and the type and timestamp that the model works out.
pub parse_variant_map-domain_to_variant_map :
    (q : Qt) (p : Platform) (now : ℤ) (user : String) (msg : Message)
    → Converts q
    → parse_variant_map q now (domain_to_variant_map q p user msg) ≡ row_for q p now user msg
unfolding parse_variant_map domain_to_variant_map value_or contains
parse_variant_map-domain_to_variant_map q p now user msg c =
    elim msg.status
      as (λ st.
        parse_variant_map q now (domain_to_variant_map q p user (record msg { status = st }))
        ≡ row_for q p now user (record msg { status = st })) [
          | other n ↦
              simp (
                c.texts, c.flags, c.integers, c.ints, c.reals, c.lists, c.missing, if_same,
                if_empty,
              )
          | below n ↦
              simp (
                c.texts, c.flags, c.integers, c.ints, c.reals, c.lists, c.missing, if_same,
                if_empty,
              )
          | _ ↦
              simp (
                c.texts, c.flags, c.integers, c.ints, c.reals, c.lists, c.missing, if_same,
                if_empty,
              )
        ]
