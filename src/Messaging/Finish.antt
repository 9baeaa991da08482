-- ===== src/Messaging/Finish.antt =====
-- The course of a transfer's timer in the message service, from its start to its last timeout.
use neo_nect_desktop.Base.{
  ℕ, zero, suc, ◌+◌, ◌<◌, true, false, leb, List, [], ◌∷◌, ◌++◌, some, ◌≡◌, refl, ap, ◌∙◌, arith,
  if◌then◌else◌, Bool-cases, inl, inr, ℤ,
}
use mathlib.Core.List.{append_assoc, append-nil}
use neo_nect_desktop.Base.Text.{String, is_empty}
use neo_nect_desktop.Base.Hash.{remove, adjust}
use neo_nect_desktop.Qt.{Qreal}
use neo_nect_desktop.Storage.Message.{sent}
use neo_nect_desktop.Messaging.{
  MessageService, Timer, Platform, Effect, media_transfer_progress, message_updated,
  update_message_status,
}
use neo_nect_desktop.Messaging.Transfers.{
  timer_at, tick, on_timeout, finish_transfer, show_progress, progress_of, advance, delete_timer,
  set_sent,
}
use neo_nect_desktop.Messaging.Pointers.{timer_at-advance, delete_timer-last, delete_timer-advance}

-- What is shown for a progress: for the message, and for its request.
abbrev pub shown : String → String → String → Qreal → ℤ → ℤ → List Effect
shown conversation id request progress bytes total =
    media_transfer_progress conversation id progress bytes total
    ∷ (if is_empty request
        then []
        else media_transfer_progress conversation request progress bytes total ∷ [])

abbrev pub advanced : Timer → Timer
advanced t = record t { step = suc t.step }

abbrev pub shown_at : Platform → Timer → List Effect
shown_at p t =
    shown t.conversation t.message_id t.request (progress_of t) (p.scale (progress_of t) t.total)
      t.total

-- What the next n timeouts show.
unfoldable pub course : Platform → Timer → ℕ → List Effect
course p t zero = []
course p t (suc n) = shown_at p (advanced t) ++ course p (advanced t) n

-- What the last timeout adds.
abbrev pub completion : Timer → List Effect
completion t =
    update_message_status t.message_id sent ""
    ∷ message_updated t.conversation t.message_id "sent" ""
    ∷ (if is_empty t.request then [] else message_updated t.conversation t.request "sent" "" ∷ [])

-- n timeouts of the timer at an address.
unfoldable pub ticks : Platform → ℕ → ℕ → MessageService → MessageService
ticks p a zero s = s
ticks p a (suc n) s = ticks p a n (tick p a s)

-- The service after the last of n timeouts.
abbrev pub completed : Platform → ℕ → Timer → ℕ → MessageService → MessageService
completed p a t n s = record s {
  transfers = record s.transfers {
    active = remove t.message_id s.transfers.active;
    running = delete_timer a s.transfers.running;
  };
  outgoing_messages =
      if t.updates then adjust t.message_id set_sent s.outgoing_messages else s.outgoing_messages;
  log = s.log ++ course p t n ++ completion t;
}

show_progress-log :
    (conversation id request : String) (progress : Qreal) (bytes total : ℤ) (s : MessageService)
    → show_progress conversation id request progress bytes total s
      ≡ record s { log = s.log ++ shown conversation id request progress bytes total }
show_progress-log conversation id request progress bytes total s =
    elim (Bool-cases (is_empty request)) [ inl e ↦ rw e refl | inr e ↦ rw (e, append_assoc) refl ]

finish_transfer-log :
    (t : Timer) (s : MessageService)
    → finish_transfer t s ≡ record s {
      transfers = record s.transfers {
        active = remove t.message_id s.transfers.active;
        running = delete_timer t.address s.transfers.running;
      };
      outgoing_messages =
          if t.updates
          then adjust t.message_id set_sent s.outgoing_messages
          else s.outgoing_messages;
      log = s.log ++ completion t;
    }
unfolding finish_transfer
finish_transfer-log t s = elim (Bool-cases (is_empty t.request)) [
  | inl e ↦ rw e (simp append_assoc)
  | inr e ↦ rw e (simp append_assoc)
]

on_timeout-more :
    (p : Platform) (t : Timer) (s : MessageService)
    → leb t.total_steps t.step ≡ false
    → on_timeout p t s ≡ record s { log = s.log ++ shown_at p t }
unfolding on_timeout
on_timeout-more p t s e =
    rw (on_timeout, e)
      (show_progress-log t.conversation t.message_id t.request (progress_of t)
        (p.scale (progress_of t) t.total) t.total s)

on_timeout-last :
    (p : Platform) (t : Timer) (s : MessageService)
    → leb t.total_steps t.step ≡ true
    → on_timeout p t s ≡ finish_transfer t (record s { log = s.log ++ shown_at p t })
unfolding on_timeout
on_timeout-last p t s e =
    rw (on_timeout, e)
      (ap (finish_transfer t) (
        show_progress-log t.conversation t.message_id t.request (progress_of t)
          (p.scale (progress_of t) t.total) t.total s))

-- A timeout before the last one.
tick-more :
    (p : Platform) (a : ℕ) (t : Timer) (s : MessageService)
    → timer_at a s.transfers.running ≡ some t
    → suc t.step < t.total_steps
    → tick p a s ≡ record s {
      transfers = record s.transfers { running = advance a s.transfers.running };
      log = s.log ++ shown_at p (advanced t);
    }
unfolding tick
tick-more p a t s f h = rw (tick, f) (on_timeout-more p (advanced t) _ (ground (arith, h)))

-- The last timeout.
tick-last :
    (p : Platform) (a : ℕ) (t : Timer) (s : MessageService)
    → timer_at a s.transfers.running ≡ some t
    → suc t.step ≡ t.total_steps
    → tick p a s ≡ completed p a t 1 s
unfolding tick course
tick-last p a t s f h =
    rw (tick, f)
      (on_timeout-last p (advanced t) _ (ground (arith, h))
        ∙ finish_transfer-log (advanced t) _
        ∙ rw (delete_timer-last a t s.transfers.running f, append-nil) refl)

-- If n timeouts are left of a timer, each of them shows its progress, and the last one deletes the
-- timer, takes the message from the running transfers, and has it shown, kept and saved as sent.
pub ticks-completed :
    (p : Platform) (a : ℕ) (t : Timer) (n : ℕ) (s : MessageService)
    → timer_at a s.transfers.running ≡ some t
    → t.step + suc n ≡ t.total_steps
    → ticks p a (suc n) s ≡ completed p a t (suc n) s
unfolding ticks course
ticks-completed p a t zero s f h = tick-last p a t s f (omega arith)
ticks-completed p a t (suc n) s f h =
    ap (ticks p a (suc n)) (tick-more p a t s f (omega arith))
    ∙ ticks-completed p a (advanced t) n _
        (timer_at-advance a a s.transfers.running ∙ ground (arith, f)) (omega arith)
    ∙ rw
        (
          delete_timer-advance,
          append_assoc s.log (shown_at p (advanced t)) (course p (advanced t) (suc n)),
        )
        refl
