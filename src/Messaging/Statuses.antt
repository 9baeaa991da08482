-- ===== src/Messaging/Statuses.antt =====
-- Delivery reports and cancellations in the message service.
use mathlib.Core.Option
use neo_nect_desktop.Base.{
  Bool, true, false, not, Option, none, ◌≡◌, refl, ◌∙◌, arith, if◌then◌else◌, Bool-cases,
  Option-cases, inl, inr,
}
use neo_nect_desktop.Base.Text.{String, ◌==◌, is_empty, eq_iff}
use neo_nect_desktop.Base.Hash.{find, has_key, find-remove, find-adjust}
use neo_nect_desktop.Storage.Message.{Message, sent, failed}
use neo_nect_desktop.Messaging.{MessageService}
use neo_nect_desktop.Messaging.Transfers.{stop_transfer, cancel_media_transfer, set_cancelled}
use neo_nect_desktop.Messaging.Delivery.{handle_message_delivery_status, settle, with_status}

-- What ends a transfer leaves of the other parts.
pub record IsStopped (id : String) (s s' : MessageService) : Type 0 where
  pub log : s'.log ≡ s.log
  pub outgoing : s'.outgoing_messages ≡ s.outgoing_messages
  pub pending : s'.pending_media_requests ≡ s.pending_media_requests
  pub active :
      (other : String)
      → find other s'.transfers.active
        ≡ (if id == other then none else find other s.transfers.active)

pub stop_transfer-IsStopped :
    (id : String) (s : MessageService) → IsStopped id s (stop_transfer id s)
unfolding stop_transfer
stop_transfer-IsStopped id s = elim (Option-cases (find id s.transfers.active)) [
  | inl e ↦
      rw (stop_transfer, e)
        (record {
          log = refl;
          outgoing = refl;
          pending = refl;
          active = λ other. ground (arith, e, eq_iff id other);
        })
  | inr (a, e) ↦
      rw (stop_transfer, e)
        (record {
          log = refl;
          outgoing = refl;
          pending = refl;
          active = λ other. find-remove id other s.transfers.active;
        })
]

-- What a report makes of a message: a failure is kept, and a success unless a transfer runs.
abbrev pub reported : Bool → Bool → String → Option Message → Option Message
reported success running error_text found =
    if not success
    then Option.map (with_status failed error_text) found
    else if running
    then found
    else Option.map (with_status sent error_text) found

-- A report of a delivery changes the message of its id alone: both caches take the failure, or the
-- success unless a transfer of the message runs; a failure ends that transfer, a success does not.
pub handle_message_delivery_status-reported :
    (id : String) (success : Bool) (error_text other : String) (s : MessageService)
    → let s' = handle_message_delivery_status id success error_text s in
      let running = has_key id s.transfers.active in
      (find other s'.outgoing_messages ≡ (
        if id == other
        then reported success running error_text (find other s.outgoing_messages)
        else find other s.outgoing_messages))
      × (find other s'.pending_media_requests ≡ (
          if id == other
          then reported success running error_text (find other s.pending_media_requests)
          else find other s.pending_media_requests))
      × (find other s'.transfers.active ≡ (
          if id == other
          then if not success then none else find other s.transfers.active
          else find other s.transfers.active))
unfolding handle_message_delivery_status settle
handle_message_delivery_status-reported id false error_text other s =
    let k = stop_transfer-IsStopped id s in
    (
      find-adjust id other (with_status failed error_text) (stop_transfer id s).outgoing_messages
          ∙ rw k.outgoing refl,
      find-adjust id other (with_status failed error_text)
            (stop_transfer id s).pending_media_requests
          ∙ rw k.pending refl,
      k.active other,
    )
handle_message_delivery_status-reported id true error_text other s =
    elim (Bool-cases (has_key id s.transfers.active)) [
      | inl e ↦ ground (arith, e)
      | inr e ↦ ground (
        arith,
        e,
        find-adjust id other (with_status sent error_text) s.outgoing_messages,
        find-adjust id other (with_status sent error_text) s.pending_media_requests,
      )
    ]

-- A cancelled transfer is no longer active, whoever started it, and a cached message of its id is
-- kept as failed; the messages and transfers of other ids stay as they are.
cancel_media_transfer-stopped :
    (conversation id other : String) (s : MessageService)
    → is_empty id ≡ false
    → let s' = cancel_media_transfer conversation id s in
      (find other s'.transfers.active
        ≡ (if id == other then none else find other s.transfers.active))
      × (find other s'.outgoing_messages ≡ (
          if id == other
          then Option.map set_cancelled (find other s.outgoing_messages)
          else find other s.outgoing_messages))
unfolding cancel_media_transfer
cancel_media_transfer-stopped conversation id other s h =
    let k = stop_transfer-IsStopped id s in
    rw (cancel_media_transfer, h)
      (
        k.active other,
        find-adjust id other set_cancelled (stop_transfer id s).outgoing_messages
            ∙ rw k.outgoing refl,
      )
