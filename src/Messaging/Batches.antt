-- ===== src/Messaging/Batches.antt =====
-- A batch of incoming messages in the message service: what is saved of it.
use neo_nect_desktop.Base.{
  ℕ, suc, Bool, true, false, ◌||◌, not, List, [], ◌∷◌, map, ◌≡◌, refl, ap, if◌then◌else◌,
  Bool-cases, Option-cases, inl, inr,
}
use neo_nect_desktop.Base.Text.{String, ◌==◌, is_empty}
use neo_nect_desktop.Base.Hash.{find}
use neo_nect_desktop.Qt.{Qt}
use neo_nect_desktop.Storage.Message.{Message}
use neo_nect_desktop.Messaging.{
  MessageService, Platform, Stamp, Effect, save_messages, transmit_message,
}
use neo_nect_desktop.Messaging.Receive.{
  receive_seen, take_request, send_payload, receive_accept, receive_decline, note_request,
  receive_ordinary, receive_ephemeral, receive_all, is_ephemeral, stored_message, save_batch,
  handle_incoming_messages, names_one, is_incoming_media,
}
use neo_nect_desktop.Messaging.Log.{
  Adds, Adds-refl, Adds-emit, Adds-trans, Adds-same, Adds-if, Adds-start_transfer,
}

-- A batch that is saved, or a message for the relay.
abbrev pub is_loud : Effect → Bool
is_loud (save_messages msgs) = true
is_loud (transmit_message msg) = true
is_loud _ = false

abbrev pub IsQuiet : Effect → Type 0
IsQuiet e = is_loud e ≡ false

unfoldable pub keep_if : (Message → Bool) → List Message → List Message
keep_if test [] = []
keep_if test (x ∷ xs) = let rest = keep_if test xs in if test x then x ∷ rest else rest

-- The messages of a batch that are kept, as they are kept.
abbrev pub kept : List Message → List Message
kept msgs = map stored_message (keep_if (λ msg. not (is_ephemeral msg.type)) msgs)

module _ (q : Qt) (p : Platform) where
  send_payload-Adds :
      (id : String) (msg : Message) (s s' : MessageService)
      → Adds IsQuiet s s'
      → Adds IsQuiet s (send_payload q p id msg s')
  unfolding send_payload
  send_payload-Adds id msg s s' a = Adds-emit IsQuiet _ s _ refl (
      Adds-start_transfer IsQuiet s _ p id 25 true msg (λ c i x b t. refl)
        (Adds-emit IsQuiet _ s _ refl (Adds-same IsQuiet s s' _ refl a)))

  take_request-Adds :
      (stamp : Stamp) (id : String) (s s' : MessageService)
      → Adds IsQuiet s s'
      → Adds IsQuiet s (take_request q p stamp id s')
  unfolding take_request
  take_request-Adds stamp id s s' a = elim (Option-cases (find id s'.pending_media_requests)) [
    | inl e ↦ rw (take_request, e) a
    | inr (original, e) ↦
        rw (take_request, e)
          (send_payload-Adds id _ s _
            (Adds-emit IsQuiet _ s _ refl (Adds-same IsQuiet s s' _ refl a)))
  ]

  receive_ephemeral-Adds :
      (stamp : Stamp) (msg : Message) (s : MessageService)
      → Adds IsQuiet s (receive_ephemeral q p stamp msg s)
  unfolding receive_ephemeral receive_seen receive_accept receive_decline
  receive_ephemeral-Adds stamp msg s =
      let start = Adds-refl IsQuiet s s refl in
      let target = q.trimmed msg.text in
      Adds-if IsQuiet s _ _ (msg.type == "presence_status") start (
        Adds-if IsQuiet s _ _ (msg.type == "typing_start" || msg.type == "typing_stop")
          (Adds-emit IsQuiet _ s s refl start)
          (Adds-if IsQuiet s _ _ (msg.type == "message_seen")
            (Adds-emit IsQuiet _ s _ refl
              (Adds-if IsQuiet s _ _ (names_one target) (Adds-emit IsQuiet _ s s refl start) start))
            (Adds-if IsQuiet s _ _ (msg.type == "media_accept")
              (take_request-Adds stamp target s _ (
                Adds-emit IsQuiet _ s _ refl
                  (Adds-emit IsQuiet _ s _ refl (Adds-emit IsQuiet _ s s refl start))))
              (Adds-same IsQuiet s _ _ refl (Adds-emit IsQuiet _ s s refl start)))))

  note_request-Adds : (msg : Message) (s : MessageService) → Adds IsQuiet s (note_request msg s)
  unfolding note_request
  note_request-Adds msg s =
      Adds-if IsQuiet s _ _ (msg.type == "media_request") (Adds-refl IsQuiet s _ refl) (
        Adds-if IsQuiet s _ _ (is_empty msg.error_text) (Adds-refl IsQuiet s s refl) (
          Adds-same IsQuiet s _ _ refl (
            Adds-emit IsQuiet _ s _ refl
              (Adds-emit IsQuiet _ s s refl (Adds-refl IsQuiet s s refl)))))

  receive_ordinary-Adds :
      (msg : Message) (s : MessageService) → Adds IsQuiet s (receive_ordinary q p msg s)
  unfolding receive_ordinary
  receive_ordinary-Adds msg s =
      let shown =
        Adds-emit IsQuiet _ s _ refl (Adds-emit IsQuiet _ s _ refl (note_request-Adds msg s)) in
      Adds-if IsQuiet s _ _ (is_incoming_media (stored_message msg).type)
        (Adds-start_transfer IsQuiet s _ p "" 16 false _ (λ c i x b t. refl) shown) shown

  receive_all-Adds :
      (stamps : ℕ → Stamp) (i : ℕ) (msgs : List Message) (s : MessageService)
      → Adds IsQuiet s (receive_all q p stamps i msgs s).1
  unfolding receive_all
  receive_all-Adds stamps i [] s = Adds-refl IsQuiet s s refl
  receive_all-Adds stamps i (msg ∷ msgs) s = elim (Bool-cases (is_ephemeral msg.type)) [
    | inl e ↦
        rw (receive_all, e)
          (Adds-trans IsQuiet s _ _ (receive_ephemeral-Adds (stamps i) msg s)
            (receive_all-Adds stamps (suc i) msgs _))
    | inr e ↦
        rw (receive_all, e)
          (Adds-trans IsQuiet s _ _ (receive_ordinary-Adds msg s)
            (receive_all-Adds stamps (suc i) msgs _))
  ]

  receive_all-kept :
      (stamps : ℕ → Stamp) (i : ℕ) (msgs : List Message) (s : MessageService)
      → (receive_all q p stamps i msgs s).0 ≡ kept msgs
  unfolding receive_all keep_if
  receive_all-kept stamps i [] s = refl
  receive_all-kept stamps i (msg ∷ msgs) s = elim (Bool-cases (is_ephemeral msg.type)) [
    | inl e ↦ rw (receive_all, e) (receive_all-kept stamps (suc i) msgs _)
    | inr e ↦
        rw (receive_all, e) (ap (◌∷◌ (stored_message msg)) (receive_all-kept stamps (suc i) msgs _))
  ]

  -- A batch is handled without a message for the relay, and then the kept messages are saved in one
  -- request: all but receipts, answers and the states of the peer, in their order; if there are none,
  -- nothing is saved.
  pub handle_incoming_messages-kept :
      (stamps : ℕ → Stamp) (msgs : List Message) (s : MessageService)
      → (handled : MessageService) × Adds IsQuiet s handled
        × (handle_incoming_messages q p stamps msgs s ≡ save_batch (kept msgs, handled))
  unfolding handle_incoming_messages
  handle_incoming_messages-kept stamps msgs s =
      let handled = receive_all q p stamps 0 msgs s in
      (
        handled.1,
        receive_all-Adds stamps 0 msgs s,
        ap (λ saved. save_batch (saved, handled.1)) (receive_all-kept stamps 0 msgs s),
      )
