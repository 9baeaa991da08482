-- ===== src/Messaging/History.antt =====
-- A page of history in the message service: what is shown, and what is deleted.
use mathlib.Core.List.{append_assoc, append-nil}
use neo_nect_desktop.Base.{not, List, [], ◌∷◌, ◌++◌, map, ◌≡◌, refl, ap, ◌∙◌, Bool-cases, inl, inr}
use neo_nect_desktop.Base.Text.{String}
use neo_nect_desktop.Qt.{Qt, VariantMap}
use neo_nect_desktop.Storage.Message.{Message}
use neo_nect_desktop.Messaging.{
  MessageService, Platform, Effect, delete_message, conversation_loaded, more_messages_loaded,
}
use neo_nect_desktop.Messaging.Rows.{domain_to_variant_map}
use neo_nect_desktop.Messaging.Requests.{
  load_rows, is_done_request, on_conversation_fetched, on_more_messages_fetched,
}
use neo_nect_desktop.Messaging.Batches.{keep_if}

-- The requests to delete the accepted media requests of a page.
abbrev pub deletions : List Message → List Effect
deletions msgs = map (λ m. delete_message m.id) (keep_if is_done_request msgs)

module _ (q : Qt) (p : Platform) where
  abbrev pub rows_of : MessageService → List Message → List VariantMap
  rows_of s msgs =
      map (domain_to_variant_map q p s.current_user_id)
        (keep_if (λ m. not (is_done_request m)) msgs)

  load_rows-split :
      (msgs : List Message) (s : MessageService)
      → load_rows q p msgs s ≡ (rows_of s msgs, record s { log = s.log ++ deletions msgs })
  unfolding load_rows keep_if
  load_rows-split [] s = rw append-nil refl
  load_rows-split (msg ∷ msgs) s = elim (Bool-cases (is_done_request msg)) [
    | inl e ↦ rw (load_rows, e) (load_rows-split msgs _ ∙ rw append_assoc refl)
    | inr e ↦
        rw (load_rows, e)
          (ap (λ rest. (domain_to_variant_map q p s.current_user_id msg ∷ rest.0, rest.1))
            (load_rows-split msgs s))
  ]

  -- A fetched page is shown in its order without the accepted media requests, after these were
  -- deleted from the database, each once; nothing else changes.
  pub on_conversation_fetched-split :
      (conversation : String) (msgs : List Message) (s : MessageService)
      → (on_conversation_fetched q p conversation msgs s ≡ record s {
        log = s.log ++ deletions msgs ++ conversation_loaded conversation (rows_of s msgs) ∷ [];
      })
        × (on_more_messages_fetched q p conversation msgs s ≡ record s {
          log = s.log ++ deletions msgs ++ more_messages_loaded conversation (rows_of s msgs) ∷ [];
        })
  unfolding on_conversation_fetched on_more_messages_fetched
  on_conversation_fetched-split conversation msgs s =
      let e = load_rows-split msgs s in (rw e refl, rw e refl)
