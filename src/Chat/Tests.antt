-- ===== src/Chat/Tests.antt =====
-- Runs and instances of the theorems about the chat model.
use mathlib.Core.List.{Perm}
use neo_nect_desktop.Base.{ℕ, ◌≡◌, refl, true, false, [], ◌∷◌, pos, arith, none}
use neo_nect_desktop.Base.Text.{String, is_empty}
use neo_nect_desktop.Qt.{Variant, VariantMap, value_or, contains}
use neo_nect_desktop.Qt.Samples.{plain_qt}
use neo_nect_desktop.Chat.Item.{MessageItem, no_progress}
use neo_nect_desktop.Chat.Blocks.{
  recalculate_blocks, AreBlocks, IsPartition, AreDivided, recalculate_blocks-AreDivided,
}
use neo_nect_desktop.Chat.Order.{ids, IsSorted}
use neo_nect_desktop.Chat.Model.{ChatMessageModel, find_row, find_from}
use neo_nect_desktop.Chat.Slots.{
  parse_all, on_conversation_loaded, on_message_added, on_message_removed,
}
use neo_nect_desktop.Chat.View.Follows.{here, next, updates, is_removed, Reach-Mirrors}
use neo_nect_desktop.Chat.Rows.{update_message_status}
use neo_nect_desktop.Chat.View.{Mirrors}
use neo_nect_desktop.Chat.View.Added.{on_message_added-Mirrors}
use neo_nect_desktop.Chat.Loaded.{
  IsArranged, on_conversation_loaded-IsArranged, on_message_added-IsArranged,
}
use neo_nect_desktop.Chat.Ids.{Distinct, on_message_added-Distinct}

abbrev row : String → String → ℕ → MessageItem
row id sender t = record {
  id = id;
  text = "hi";
  from_me = false;
  sender_name = sender;
  sender_avatar = "A";
  message_type = "text";
  media_url = "";
  file_name = "";
  file_size = pos 0;
  duration = pos 0;
  waveform = [];
  status = "sent";
  error_text = "";
  timestamp = pos t;
  is_first_in_block = true;
  is_last_in_block = true;
  is_first_unread = false;
  transfer_progress = no_progress;
  transfer_bytes = pos 0;
}

-- One message of ann and one of bob.
abbrev chat : ChatMessageModel
chat = record {
  items = row "1" "ann" 200000000000 ∷ row "2" "bob" 200000060000 ∷ [];
  active_conversation_id = "dms:ann";
  can_fetch_more = false;
  is_loading_more = false;
  trace = [];
}

abbrev third : VariantMap
third =
    ("id", Variant.text "3")
    ∷ ("senderId", Variant.text "bob")
    ∷ ("timestamp", Variant.int (pos 200000120000))
    ∷ []

recalculate_blocks-AreDivided_example :
    AreDivided none (recalculate_blocks chat.items)
    × IsPartition true (recalculate_blocks chat.items)
recalculate_blocks-AreDivided_example = recalculate_blocks-AreDivided chat.items

chat-IsSorted : IsSorted chat.items
chat-IsSorted = ((omega arith, tt), (tt, tt))

chat-AreBlocks : AreBlocks none chat.items
chat-AreBlocks = (refl, refl, (refl, refl, tt))

Reach-Mirrors_example :
    Mirrors chat.items
      (on_message_removed plain_qt "" "1" (update_message_status "2" "seen" "" chat))
Reach-Mirrors_example =
    Reach-Mirrors plain_qt chat.items chat
      (on_message_removed plain_qt "" "1" (update_message_status "2" "seen" "" chat))
      (next (next here (updates "2" "seen" "")) (is_removed "" "1")) refl

third-absent : find_row (plain_qt.to_string (value_or Variant.invalid "id" third)) chat ≡ none
unfolding find_from value_or
third-absent = refl

on_message_added-Mirrors_example :
    Mirrors chat.items (on_message_added plain_qt (pos 5) "dms:ann" third chat)
on_message_added-Mirrors_example =
    on_message_added-Mirrors plain_qt chat.items (pos 5) "dms:ann" third chat third-absent
      chat-IsSorted chat-AreBlocks refl

on_conversation_loaded-IsArranged_example :
    let loaded = on_conversation_loaded plain_qt (λ i. pos 5) "dms:ann" (third ∷ third ∷ []) chat in
    IsArranged loaded.items
    × Perm (ids loaded.items) (ids (parse_all plain_qt (λ i. pos 5) 0 (third ∷ third ∷ [])))
    × (loaded.is_loading_more ≡ false)
    × (loaded.can_fetch_more ≡ false)
on_conversation_loaded-IsArranged_example =
    on_conversation_loaded-IsArranged plain_qt (λ i. pos 5) "dms:ann" (third ∷ third ∷ []) chat refl

on_message_added-IsArranged_example :
    IsArranged (on_message_added plain_qt (pos 5) "dms:ann" third chat).items
on_message_added-IsArranged_example =
    on_message_added-IsArranged plain_qt (pos 5) "dms:ann" third chat third-absent
      (chat-IsSorted, chat-AreBlocks, (refl, (refl, refl)))

third-has_id : contains "id" third ≡ true
unfolding contains
third-has_id = refl

third-id : is_empty (plain_qt.to_string (value_or Variant.invalid "id" third)) ≡ false
unfolding value_or
third-id = refl

on_message_added-Distinct_example :
    Distinct (ids (on_message_added plain_qt (pos 5) "dms:ann" third chat).items)
on_message_added-Distinct_example =
    on_message_added-Distinct plain_qt (pos 5) "dms:ann" third chat third-has_id third-id
      ((refl, tt), (tt, tt))
