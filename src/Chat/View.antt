-- ===== src/Chat/View.antt =====
-- What a view that follows the signals of the chat model shows, by the documentation of
-- QAbstractItemModel: it reads the rows that a signal names, the named roles only, and no other.
pub mod Single
pub mod Moves
pub mod Added
pub mod Follows
use neo_nect_desktop.Base.{ℕ, zero, suc, ◌+◌, ◌-◌, List, [], ◌∷◌, ◌++◌, ◌≡◌, take, drop}
use neo_nect_desktop.Chat.Item.{MessageItem}
use neo_nect_desktop.Chat.Model.{
  Role, text, from_me, sender_name, sender_avatar, first_in_block, last_in_block, first_unread,
  message_id, message_type, media_url, file_name, file_size, duration, waveform, status, error_text,
  timestamp, transfer_progress, transfer_bytes, Signal, end_insert_rows, end_remove_rows,
  end_reset_model, data_changed, Event, ChatMessageModel,
}

-- One role read again.
abbrev pub read_role : Role → MessageItem → MessageItem → MessageItem
read_role text new x = record x { text = new.text }
read_role from_me new x = record x { from_me = new.from_me }
read_role sender_name new x = record x { sender_name = new.sender_name }
read_role sender_avatar new x = record x { sender_avatar = new.sender_avatar }
read_role first_in_block new x = record x { is_first_in_block = new.is_first_in_block }
read_role last_in_block new x = record x { is_last_in_block = new.is_last_in_block }
read_role first_unread new x = record x { is_first_unread = new.is_first_unread }
read_role message_id new x = record x { id = new.id }
read_role message_type new x = record x { message_type = new.message_type }
read_role media_url new x = record x { media_url = new.media_url }
read_role file_name new x = record x { file_name = new.file_name }
read_role file_size new x = record x { file_size = new.file_size }
read_role duration new x = record x { duration = new.duration }
read_role waveform new x = record x { waveform = new.waveform }
read_role status new x = record x { status = new.status }
read_role error_text new x = record x { error_text = new.error_text }
read_role timestamp new x = record x { timestamp = new.timestamp }
read_role transfer_progress new x = record x { transfer_progress = new.transfer_progress }
read_role transfer_bytes new x = record x { transfer_bytes = new.transfer_bytes }

abbrev pub read_roles : List Role → MessageItem → MessageItem → MessageItem
read_roles [] new x = x
read_roles (r ∷ roles) new x = read_roles roles new (read_role r new x)

-- Without any role the whole row is read.
abbrev pub read_row : List Role → MessageItem → MessageItem → MessageItem
read_row [] new x = new
read_row (r ∷ roles) new x = read_roles (r ∷ roles) new x

-- `n` rows from the `f`-th one read again, from the model's rows into the view's.
abbrev pub read_rows : ℕ → ℕ → List Role → List MessageItem → List MessageItem → List MessageItem
read_rows f n roles rows [] = []
read_rows f n roles [] (x ∷ xs) = x ∷ xs
read_rows (suc f) n roles (r ∷ rs) (x ∷ xs) = x ∷ read_rows f n roles rs xs
read_rows zero zero roles (r ∷ rs) (x ∷ xs) = x ∷ xs
read_rows zero (suc n) roles (r ∷ rs) (x ∷ xs) = read_row roles r x ∷ read_rows zero n roles rs xs

-- A view follows one signal.
abbrev pub follow : Signal → List MessageItem → List MessageItem → List MessageItem
follow (end_insert_rows f l) rows shown =
    take f shown ++ take (l + 1 - f) (drop f rows) ++ drop f shown
follow (end_remove_rows f l) rows shown = take f shown ++ drop (suc l) shown
follow end_reset_model rows shown = rows
follow (data_changed f l roles) rows shown = read_rows f (l + 1 - f) roles rows shown
follow _ rows shown = shown

-- What a view that showed `start` shows after the signals, of which the last comes first.
abbrev pub replay : List MessageItem → List Event → List MessageItem
replay start [] = start
replay start (e ∷ es) = follow e.signal e.rows (replay start es)

-- A view that showed `start` before the model's signals shows the model's rows.
abbrev pub Mirrors : List MessageItem → ChatMessageModel → Type 0
Mirrors start m = replay start m.trace ≡ m.items
