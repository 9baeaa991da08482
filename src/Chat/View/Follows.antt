-- ===== src/Chat/View/Follows.antt =====
-- A view over any sequence of calls of src/core/chatmessagemodel.cpp that change rows in place, take one
-- out, or put one in by insertMessageItem. Those that the signals do not follow are left out.
use neo_nect_desktop.Base.{List, ℤ}
use neo_nect_desktop.Base.Text.{String}
use neo_nect_desktop.Qt.{Qt, Qreal, VariantMap}
use neo_nect_desktop.Chat.Item.{MessageItem}
use neo_nect_desktop.Chat.Model.{ChatMessageModel}
use neo_nect_desktop.Chat.Rows.{
  insert_message_item, update_message_status, set_first_unread_index, set_first_unread_message_id,
}
use neo_nect_desktop.Chat.Slots.{on_message_removed, on_message_updated, on_media_transfer_progress}
use neo_nect_desktop.Chat.View.{Mirrors}
use neo_nect_desktop.Chat.View.Moves.{insert_message_item-Mirrors, on_message_removed-Mirrors}
use neo_nect_desktop.Chat.View.Single.{
  update_message_status-Mirrors, on_media_transfer_progress-Mirrors, on_message_updated-Mirrors,
  set_first_unread_index-Mirrors, set_first_unread_message_id-Mirrors,
}

-- A call that the view or the message service makes.
pub data Step (q : Qt) (m : ChatMessageModel) : ChatMessageModel → Type 0 where
  inserts :
      (uuid : String) (now : ℤ) (map : VariantMap) → Step q m (insert_message_item q uuid now map m)
  is_removed : (id message_id : String) → Step q m (on_message_removed q id message_id m)
  is_updated :
      (id message_id status error_text : String)
      → Step q m (on_message_updated q id message_id status error_text m)
  progresses :
      (id message_id : String) (progress : Qreal) (bytes total : ℤ)
      → Step q m (on_media_transfer_progress q id message_id progress bytes total m)
  updates :
      (id status error_text : String) → Step q m (update_message_status id status error_text m)
  marks_index : (index : ℤ) → Step q m (set_first_unread_index index m)
  marks_message : (id : String) → Step q m (set_first_unread_message_id id m)

pub data Reach (q : Qt) (start : ChatMessageModel) : ChatMessageModel → Type 0 where
  here : Reach q start start
  next : {m m' : ChatMessageModel} → Reach q start m → Step q m m' → Reach q start m'

module _ (q : Qt) (start : List MessageItem) where
  Step-Mirrors : {m m' : ChatMessageModel} → Step q m m' → Mirrors start m → Mirrors start m'
  Step-Mirrors {m} (inserts uuid now map) s = insert_message_item-Mirrors start q uuid now map m s
  Step-Mirrors {m} (is_removed id message_id) s =
      on_message_removed-Mirrors start q id message_id m s
  Step-Mirrors {m} (is_updated id message_id status error_text) s =
      on_message_updated-Mirrors start q id message_id status error_text m s
  Step-Mirrors {m} (progresses id message_id progress bytes total) s =
      on_media_transfer_progress-Mirrors start q id message_id progress bytes total m s
  Step-Mirrors {m} (updates id status error_text) s =
      update_message_status-Mirrors start id status error_text m s
  Step-Mirrors {m} (marks_index index) s = set_first_unread_index-Mirrors start index m s
  Step-Mirrors {m} (marks_message id) s = set_first_unread_message_id-Mirrors start id m s

  -- After any calls of insertMessageItem, updateMessageStatus, setFirstUnreadIndex and
  -- setFirstUnreadMessageId, and any signals of the message service for a removed, an updated or a
  -- transferring message, on every branch of each, a view that showed the rows before shows the rows
  -- after.
  pub Reach-Mirrors : (m m' : ChatMessageModel) → Reach q m m' → Mirrors start m → Mirrors start m'
  Reach-Mirrors m m' here s = s
  Reach-Mirrors m m' (next r step) s = Step-Mirrors step (Reach-Mirrors m _ r s)
