-- ===== src/Messaging/Keeps.antt =====
-- How the operations of the message service treat its timers: each keeps what `Pointers` states of them.
use neo_nect_desktop.Base.{
  ℕ, suc, Bool, true, false, leb, some, ◌≡◌, refl, sym, subst, arith, if◌then◌else◌, Bool-cases,
  Option-cases, inl, inr, ℤ, ltb,
}
use neo_nect_desktop.Base.Text.{String, is_empty}
use neo_nect_desktop.Base.Hash.{find, remove}
use neo_nect_desktop.Qt.{Qreal}
use neo_nect_desktop.Storage.Message.{Message}
use neo_nect_desktop.Messaging.{MessageService, Timer, Timers, Platform}
use neo_nect_desktop.Messaging.Transfers.{
  timer_at, start_transfer, start_timer, stop_transfer, finish_transfer, on_timeout, tick,
  show_progress, cancel_media_transfer, advance, delete_timer,
}
use neo_nect_desktop.Messaging.Pointers.{Inv, start-Inv, end-Inv, advance-Inv, delete_timer-last}

pub choose-Inv :
    (x y : MessageService) (b : Bool)
    → Inv x.transfers
    → Inv y.transfers
    → Inv (if b then x else y).transfers
choose-Inv x y true v w = v
choose-Inv x y false v w = w

show_progress-Inv :
    (conversation id request : String) (progress : Qreal) (bytes total : ℤ) (s : MessageService)
    → Inv s.transfers
    → Inv (show_progress conversation id request progress bytes total s).transfers
show_progress-Inv conversation id request progress bytes total s v =
    choose-Inv _ _ (is_empty request) v v

pub start_transfer-Inv :
    (p : Platform) (request : String) (steps : ℕ) (updates : Bool) (msg : Message)
    (s : MessageService)
    → ltb 1 steps ≡ true
    → Inv s.transfers
    → Inv (start_transfer p request steps updates msg s).transfers
unfolding start_transfer start_timer
start_transfer-Inv p request steps updates msg s h v =
    start-Inv _ _ refl (ground (arith, h)) (show_progress-Inv _ _ request _ _ _ s v)

pub stop_transfer-Inv :
    (id : String) (s : MessageService) → Inv s.transfers → Inv (stop_transfer id s).transfers
unfolding stop_transfer
stop_transfer-Inv id s v = elim (Option-cases (find id s.transfers.active)) [
  | inl e ↦ rw (stop_transfer, e) v
  | inr (a, e) ↦ rw (stop_transfer, e) (end-Inv id a s.transfers (v.live id a e) v)
]

pub cancel_media_transfer-Inv :
    (conversation id : String) (s : MessageService)
    → Inv s.transfers
    → Inv (cancel_media_transfer conversation id s).transfers
unfolding cancel_media_transfer
cancel_media_transfer-Inv conversation id s v =
    choose-Inv _ _ (is_empty id) v (stop_transfer-Inv id s v)

show_progress-transfers :
    (conversation id request : String) (progress : Qreal) (bytes total : ℤ) (s : MessageService)
    → s.transfers ≡ (show_progress conversation id request progress bytes total s).transfers
show_progress-transfers conversation id request progress bytes total s =
    elim (Bool-cases (is_empty request)) [ inl e ↦ rw e refl | inr e ↦ rw e refl ]

-- What is left of the transfers when one has ended.
abbrev without_timer : Timer → Timers → Timers
without_timer t ts = record ts {
  active = remove t.message_id ts.active;
  running = delete_timer t.address ts.running;
}

finish_transfer-Inv :
    (t : Timer) (ts : Timers) (s : MessageService)
    → ts ≡ s.transfers
    → Inv (without_timer t ts)
    → Inv (finish_transfer t s).transfers
unfolding finish_transfer
finish_transfer-Inv t ts s e v =
    let w = subst (λ x. Inv (without_timer t x)) e v in choose-Inv _ _ (is_empty t.request) w w

-- The timer at an address, advanced to its last step: its entry goes with it.
last-Inv :
    (a : ℕ) (timer : Timer) (t : Timers)
    → timer_at a t.running ≡ some timer
    → Inv t
    → Inv (record t {
      active = remove timer.message_id t.active;
      running = delete_timer timer.address (advance a t.running);
    })
last-Inv a timer t f v =
    subst (λ ts. Inv (record t { active = remove timer.message_id t.active; running = ts }))
      (sym (delete_timer-last a timer t.running f))
      (end-Inv timer.message_id a t (record { timer = timer; found = f; same_id = refl }) v)

-- A timeout, by whether it is the last one.
on_timeout-Inv :
    (p : Platform) (a : ℕ) (t : Timer) (s : MessageService)
    → timer_at a s.transfers.running ≡ some t
    → Inv s.transfers
    → Inv
        (on_timeout p
          (record t { step = suc t.step })
          (record s {
            transfers = record s.transfers { running = advance a s.transfers.running };
          })).transfers
unfolding on_timeout
on_timeout-Inv p a t s e v = elim (Bool-cases (leb t.total_steps (suc t.step))) [
  | inl last ↦
      rw (on_timeout, last)
        (finish_transfer-Inv (record t { step = suc t.step })
          (record s.transfers { running = advance a s.transfers.running }) _
          (show_progress-transfers _ _ _ _ _ _ _) (last-Inv a t s.transfers e v))
  | inr more ↦
      rw (on_timeout, more)
        (show_progress-Inv _ _ _ _ _ _ _ (advance-Inv a t s.transfers e (ground (arith, more)) v))
]

pub tick-Inv :
    (p : Platform) (a : ℕ) (s : MessageService) → Inv s.transfers → Inv (tick p a s).transfers
unfolding tick
tick-Inv p a s v = elim (Option-cases (timer_at a s.transfers.running)) [
  | inl e ↦ rw (tick, e) v
  | inr (t, e) ↦ rw (tick, e) (on_timeout-Inv p a t s e v)
]
