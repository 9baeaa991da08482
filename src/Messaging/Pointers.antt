-- ===== src/Messaging/Pointers.antt =====
-- The table of the running transfers in the message service: what its entries point to.
use neo_nect_desktop.Base.{
  ℕ, suc, ◌≤◌, ◌<◌, false, List, [], ◌∷◌, none, some, ◌≡◌, refl, sym, ap, ◌∙◌, arith, if◌then◌else◌,
  All, Bool-cases, inl, inr, ◌==◌,
}
use neo_nect_desktop.Base.Text
use neo_nect_desktop.Base.Text.{String, eq_iff}
use neo_nect_desktop.Base.Hash.{find, insert, remove, find-remove}
use neo_nect_desktop.Messaging.{Timer, Timers}
use neo_nect_desktop.Messaging.Transfers.{timer_at, delete_timer, advance}

-- A timer runs at an address, for the message with an id.
pub record IsRunning (id : String) (a : ℕ) (ts : List Timer) : Type 0 where
  pub timer : Timer
  pub found : timer_at a ts ≡ some timer
  pub same_id : timer.message_id ≡ id

-- A timer that is not at its last step.
abbrev pub IsShort : Timer → Type 0
IsShort t = t.step < t.total_steps

-- Each entry points to a running timer of its own message, each timer has steps left, and no timer
-- has an address that is still unused.
pub record Inv (t : Timers) : Type 0 where
  pub live : (id : String) (a : ℕ) → find id t.active ≡ some a → IsRunning id a t.running
  pub fresh : (a : ℕ) → t.next ≤ a → timer_at a t.running ≡ none
  pub ends : All IsShort t.running

timer_at-delete_timer :
    (a b : ℕ) (ts : List Timer)
    → timer_at b (delete_timer a ts) ≡ (if a == b then none else timer_at b ts)
unfolding timer_at delete_timer
timer_at-delete_timer a b [] = ground arith
timer_at-delete_timer a b (t ∷ ts) = ground (arith, timer_at-delete_timer a b ts)

All-delete_timer : (a : ℕ) (ts : List Timer) → All IsShort ts → All IsShort (delete_timer a ts)
unfolding delete_timer
All-delete_timer a [] h = tt
All-delete_timer a (t ∷ ts) h = ground (arith, All-delete_timer a ts h.1)

pub delete_timer-advance :
    (a : ℕ) (ts : List Timer) → delete_timer a (advance a ts) ≡ delete_timer a ts
unfolding delete_timer advance
delete_timer-advance a [] = refl
delete_timer-advance a (t ∷ ts) = ground (arith, delete_timer-advance a ts)

address-timer_at : (a : ℕ) (ts : List Timer) (t : Timer) → timer_at a ts ≡ some t → t.address ≡ a
unfolding timer_at
address-timer_at a [] t h = ground arith
address-timer_at a (x ∷ xs) t h = ground (arith, address-timer_at a xs t)

pub delete_timer-last :
    (a : ℕ) (t : Timer) (ts : List Timer)
    → timer_at a ts ≡ some t
    → delete_timer t.address (advance a ts) ≡ delete_timer a ts
delete_timer-last a t ts f =
    ap (λ b. delete_timer b (advance a ts)) (address-timer_at a ts t f) ∙ delete_timer-advance a ts

pub timer_at-advance :
    (a b : ℕ) (ts : List Timer)
    → timer_at b (advance a ts) ≡ (
        if a == b
        then elim (timer_at b ts) [ none ↦ none | some t ↦ some (record t { step = suc t.step }) ]
        else timer_at b ts)
unfolding timer_at advance
timer_at-advance a b [] = ground arith
timer_at-advance a b (t ∷ ts) = ground (arith, timer_at-advance a b ts)

timer_at_other :
    (a : ℕ) (t : Timer) (ts : List Timer)
    → (t.address == a) ≡ false
    → timer_at a (t ∷ ts) ≡ timer_at a ts
unfolding timer_at
timer_at_other a t ts e = rw e refl

All-advance :
    (a : ℕ) (ts : List Timer) (t : Timer)
    → timer_at a ts ≡ some t
    → suc t.step < t.total_steps
    → All IsShort ts
    → All IsShort (advance a ts)
unfolding timer_at advance
All-advance a [] t f s h = tt
All-advance a (x ∷ xs) t f s h = elim (Bool-cases (x.address == a)) [
  | inl e ↦ ground (arith, f, s, h)
  | inr e ↦ rw e (h.0, All-advance a xs t (rw (sym (timer_at_other a x xs e)) f) s h.1)
]

-- An entry is removed together with the timer that it points to.
pub end-Inv :
    (id : String) (a : ℕ) (t : Timers)
    → IsRunning id a t.running
    → Inv t
    → Inv (record t { active = remove id t.active; running = delete_timer a t.running })
end-Inv id a t r v = record {
  live = λ id' b h.
      let other : Text.◌==◌ id id' ≡ false = ground (arith, find-remove id id' t.active) in
      let entry : find id' t.active ≡ some b = ground (arith, find-remove id id' t.active) in
      let k = v.live id' b entry in
      record {
        timer = k.timer;
        found = ground (
          arith,
          timer_at-delete_timer a b t.running,
          k.found,
          r.found,
          k.same_id,
          r.same_id,
          eq_iff id id',
        );
        same_id = k.same_id;
      };
  fresh = λ b h. ground (arith, timer_at-delete_timer a b t.running, v.fresh b h);
  ends = All-delete_timer a t.running v.ends;
}

-- A timer at an unused address, entered for its message.
pub start-Inv :
    (timer : Timer) (t : Timers)
    → timer.address ≡ t.next
    → IsShort timer
    → Inv t
    → Inv (record {
      active = insert timer.message_id t.next t.active;
      running = timer ∷ t.running;
      next = suc t.next;
    })
unfolding timer_at find
start-Inv timer t e s v = record {
  live = λ id b h. elim (Bool-cases (Text.◌==◌ timer.message_id id)) [
    | inl same ↦ record {
      timer = timer;
      found = ground (arith, h, e);
      same_id = (eq_iff timer.message_id id).0 same;
    }
    | inr other ↦
        let k = v.live id b (ground (arith, find-remove timer.message_id id t.active)) in
        record {
          timer = k.timer;
          found = ground (arith, k.found, v.fresh b, e);
          same_id = k.same_id;
        }
  ];
  fresh = λ b h. ground (arith, v.fresh b);
  ends = (s, v.ends);
}

-- A timer that is not at its last step goes on.
pub advance-Inv :
    (a : ℕ) (timer : Timer) (t : Timers)
    → timer_at a t.running ≡ some timer
    → suc timer.step < timer.total_steps
    → Inv t
    → Inv (record t { running = advance a t.running })
advance-Inv a timer t f s v = record {
  live = λ id b h.
      let k = v.live id b h in
      elim (Bool-cases (a == b)) [
        | inl e ↦ record {
          timer = record k.timer { step = suc k.timer.step };
          found = timer_at-advance a b t.running ∙ rw (e, k.found) refl;
          same_id = k.same_id;
        }
        | inr e ↦ record {
          timer = k.timer;
          found = timer_at-advance a b t.running ∙ rw e k.found;
          same_id = k.same_id;
        }
      ];
  fresh = λ b h. ground (arith, timer_at-advance a b t.running, v.fresh b h);
  ends = All-advance a t.running timer f s v.ends;
}
