-- ===== src/Messaging/Transfers.antt =====
-- The timers that show the progress of a transfer: a block that src/services/messageservice.cpp holds
-- four times, their timeout, and the end of one.
use neo_nect_desktop.Base.{
  ℕ, suc, Bool, leb, List, [], ◌∷◌, Option, none, some, ℤ, pos, if◌then◌else◌, ◌==◌,
}
use neo_nect_desktop.Base.Text.{String, is_empty}
use neo_nect_desktop.Base.Hash.{Hash, find, insert, remove, adjust}
use neo_nect_desktop.Qt.{Qreal}
use neo_nect_desktop.Storage.Message.{Message, MessageStatus, sent}
use neo_nect_desktop.Messaging.{
  Timer, MessageService, Platform, emit, media_transfer_progress, message_updated,
  update_message_status,
}
use neo_nect_desktop.Messaging.Rows.{first_progress, full, total_size}

unfoldable pub timer_at : ℕ → List Timer → Option Timer
timer_at a [] = none
timer_at a (t ∷ ts) = if t.address == a then some t else timer_at a ts

-- stop() and deleteLater()
unfoldable pub delete_timer : ℕ → List Timer → List Timer
delete_timer a [] = []
delete_timer a (t ∷ ts) = let rest = delete_timer a ts in if t.address == a then rest else t ∷ rest

-- (*step)++ of the timer at an address
unfoldable pub advance : ℕ → List Timer → List Timer
advance a [] = []
advance a (t ∷ ts) =
    if t.address == a then record t { step = suc t.step } ∷ ts else t ∷ advance a ts

-- The progress of a transfer at its start, shown for its request too.
abbrev pub show_progress :
    String → String → String → Qreal → ℤ → ℤ → MessageService → MessageService
show_progress conversation id request progress bytes total s =
    let s = emit (media_transfer_progress conversation id progress bytes total) s in
    if is_empty request
    then s
    else emit (media_transfer_progress conversation request progress bytes total) s

-- A timer is made, and put into m_activeTransfers under the id of the message.
unfoldable pub start_timer : String → ℕ → Bool → Message → MessageService → MessageService
start_timer request total_steps updates msg s = record s {
  transfers = record {
    active = insert msg.id s.transfers.next s.transfers.active;
    running =
        record {
          address = s.transfers.next;
          step = 1;
          total_steps = total_steps;
          message_id = msg.id;
          request = request;
          conversation = msg.conversation_id;
          total = total_size msg;
          updates = updates;
        }
        ∷ s.transfers.running;
    next = suc s.transfers.next;
  };
}

-- if (m_activeTransfers.contains(id)) { take(id)->stop(); … }
unfoldable pub stop_transfer : String → MessageService → MessageService
stop_transfer id s = elim (find id s.transfers.active) [
  | none ↦ s
  | some a ↦ record s {
    transfers = record s.transfers {
      active = remove id s.transfers.active;
      running = delete_timer a s.transfers.running;
    };
  }
]

-- qMin(1.0, static_cast<qreal>(step) / total_steps)
unfoldable pub progress_of : Timer → Qreal
progress_of t =
    if leb t.total_steps t.step then full else record { num = pos t.step; den = t.total_steps }

abbrev pub set_sent : Message → Message
set_sent msg = record msg { status = sent }

-- The timer's last part: it is deleted, and its message is sent.
unfoldable pub finish_transfer : Timer → MessageService → MessageService
finish_transfer t s =
    let s = record s {
      transfers = record s.transfers {
        active = remove t.message_id s.transfers.active;
        running = delete_timer t.address s.transfers.running;
      };
      outgoing_messages =
          if t.updates
          then adjust t.message_id set_sent s.outgoing_messages
          else s.outgoing_messages;
    } in
    let s = emit (update_message_status t.message_id sent "") s in
    let s = emit (message_updated t.conversation t.message_id "sent" "") s in
    if is_empty t.request then s else emit (message_updated t.conversation t.request "sent" "") s

module _ (p : Platform) where
  -- The first progress of a transfer, and its timer.
  unfoldable pub start_transfer : String → ℕ → Bool → Message → MessageService → MessageService
  start_transfer request total_steps updates msg s =
      let total = total_size msg in
      start_timer request total_steps updates msg (
        show_progress msg.conversation_id msg.id request first_progress
          (p.scale first_progress total) total s)

  -- The timeout of the timer t, whose step was advanced.
  unfoldable pub on_timeout : Timer → MessageService → MessageService
  on_timeout t s =
      let s =
        show_progress t.conversation t.message_id t.request (progress_of t)
          (p.scale (progress_of t) t.total) t.total s in
      if leb t.total_steps t.step then finish_transfer t s else s

  -- A timeout of the timer at an address, if it runs.
  unfoldable pub tick : ℕ → MessageService → MessageService
  tick a s = elim (timer_at a s.transfers.running) [
    | none ↦ s
    | some t ↦
        on_timeout (record t { step = suc t.step })
          (record s { transfers = record s.transfers { running = advance a s.transfers.running } })
  ]

-- ~MessageService: the timers of m_activeTransfers are deleted.
unfoldable pub delete_active : Hash ℕ → List Timer → List Timer
delete_active [] ts = ts
delete_active ((id, a) ∷ rest) ts = delete_active rest (delete_timer a ts)

unfoldable pub destroy : MessageService → MessageService
destroy s = record s {
  transfers = record s.transfers {
    active = [];
    running = delete_active s.transfers.active s.transfers.running;
  };
}

-- cancelMediaTransfer
abbrev pub set_cancelled : Message → Message
set_cancelled msg = record msg { status = MessageStatus.failed; error_text = "Transfer cancelled" }

abbrev pub conversation_or : String → Option Message → String
conversation_or missing none = missing
conversation_or missing (some msg) = msg.conversation_id

unfoldable pub cancel_media_transfer : String → String → MessageService → MessageService
cancel_media_transfer conversation_id id s =
    if is_empty id
    then s
    else let s = stop_transfer id s in
      let conv =
        if is_empty conversation_id
        then conversation_or conversation_id (find id s.outgoing_messages)
        else conversation_id in
      let s = record s { outgoing_messages = adjust id set_cancelled s.outgoing_messages } in
      let s = emit (update_message_status id MessageStatus.failed "Transfer cancelled") s in
      let s = emit (message_updated conv id "failed" "Transfer cancelled") s in
      emit (media_transfer_progress conv id (record { num = pos 0; den = 1 }) (pos 0) (pos 0)) s
