-- ===== src/Messaging/Log.antt =====
-- What a call of the message service adds to the log of its effects.
use neo_nect_desktop.Base.{
  Bool, true, false, List, [], ◌∷◌, ◌++◌, ◌≡◌, refl, sym, ap, ◌∙◌, if◌then◌else◌, All, inl, inr,
  Option-cases, ℤ, ℕ,
}
use mathlib.Core.List.{append_assoc, append-nil}
use neo_nect_desktop.Base.Text.{String, is_empty}
use neo_nect_desktop.Base.Hash.{find}
use neo_nect_desktop.Qt.{Qreal}
use neo_nect_desktop.Storage.Message.{Message}
use neo_nect_desktop.Messaging.{MessageService, Effect, emit, Platform, media_transfer_progress}
use neo_nect_desktop.Messaging.Rows.{first_progress, total_size}
use neo_nect_desktop.Messaging.Transfers.{show_progress, start_transfer, start_timer, stop_transfer}

pub All-append :
    (P : Effect → Type 0) (xs ys : List Effect) → All P xs → All P ys → All P (xs ++ ys)
All-append P [] ys h k = k
All-append P (x ∷ xs) ys h k = (h.0, All-append P xs ys h.1 k)

-- The log of s' is that of s and then effects of which P holds.
pub record Adds (P : Effect → Type 0) (s s' : MessageService) : Type 0 where
  pub added : List Effect
  pub follows : s'.log ≡ s.log ++ added
  pub each : All P added

module _ (P : Effect → Type 0) where
  pub Adds-refl : (s s' : MessageService) → s'.log ≡ s.log → Adds P s s'
  Adds-refl s s' e = record { added = []; follows = e ∙ sym (append-nil _); each = tt }

  pub Adds-emit : (e : Effect) (s s' : MessageService) → P e → Adds P s s' → Adds P s (emit e s')
  Adds-emit e s s' h a = record {
    added = a.added ++ e ∷ [];
    follows = ap (λ l. l ++ e ∷ []) a.follows ∙ append_assoc s.log a.added (e ∷ []);
    each = All-append P a.added (e ∷ []) a.each (h, tt);
  }

  pub Adds-trans : (a b c : MessageService) → Adds P a b → Adds P b c → Adds P a c
  Adds-trans a b c f g = record {
    added = f.added ++ g.added;
    follows = g.follows ∙ ap (λ l. l ++ g.added) f.follows ∙ append_assoc a.log f.added g.added;
    each = All-append P f.added g.added f.each g.each;
  }

  -- Another service with the same log.
  pub Adds-same : (s s' t : MessageService) → t.log ≡ s'.log → Adds P s s' → Adds P s t
  Adds-same s s' t e a = record { added = a.added; follows = e ∙ a.follows; each = a.each }

  pub Adds-if :
      (s x y : MessageService) (b : Bool) → Adds P s x → Adds P s y → Adds P s (if b then x else y)
  Adds-if s x y true f g = f
  Adds-if s x y false f g = g

  Adds-show_progress :
      (s s' : MessageService) (conversation id request : String) (progress : Qreal)
      (bytes total : ℤ)
      → ((c i : String) → P (media_transfer_progress c i progress bytes total))
      → Adds P s s'
      → Adds P s (show_progress conversation id request progress bytes total s')
  Adds-show_progress s s' conversation id request progress bytes total h a =
      let once = Adds-emit _ s s' (h conversation id) a in
      Adds-if s _ _ (is_empty request) once (Adds-emit _ s _ (h conversation request) once)

  -- A transfer adds what it shows at its start.
  pub Adds-start_transfer :
      (s s' : MessageService) (p : Platform) (request : String) (steps : ℕ) (updates : Bool)
      (msg : Message)
      → ((c i : String) (progress : Qreal) (bytes total : ℤ)
          → P (media_transfer_progress c i progress bytes total))
      → Adds P s s'
      → Adds P s (start_transfer p request steps updates msg s')
  unfolding start_transfer start_timer
  Adds-start_transfer s s' p request steps updates msg h a = Adds-same s _ _ refl (
      Adds-show_progress s s' msg.conversation_id msg.id request first_progress
        (p.scale first_progress (total_size msg)) (total_size msg) (λ c i. h c i _ _ _) a)

  -- The end of a transfer adds nothing.
  Adds-stop_transfer :
      (s s' : MessageService) (id : String) → Adds P s s' → Adds P s (stop_transfer id s')
  unfolding stop_transfer
  Adds-stop_transfer s s' id a = elim (Option-cases (find id s'.transfers.active)) [
    | inl e ↦ rw (stop_transfer, e) a
    | inr (t, e) ↦ rw (stop_transfer, e) (Adds-same s s' _ refl a)
  ]
