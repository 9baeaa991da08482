-- ===== src/Chat/Blocks.antt =====
-- `recalculateBlocks` of src/core/chatmessagemodel.cpp: which rows begin and end a block of messages
-- of one sender.
use neo_nect_desktop.Base.{
  Bool, true, false, ◌&&◌, ◌||◌, not, arith, List, [], ◌∷◌, Option, none, some, ◌≡◌, refl, ap, pos,
  ◌-ℤ◌, ltb_ℤ, length, ◌∙◌, sym, suc, ap₂,
}
use neo_nect_desktop.Base.Text.{◌==◌, eq_iff}
use neo_nect_desktop.Chat.Item.{MessageItem}

-- The loop's first condition, on the row before, and its second one, on the row after.
abbrev pub joins_before : Option MessageItem → MessageItem → Bool
joins_before none x = false
joins_before (some previous) x =
    previous.sender_name == x.sender_name && ltb_ℤ (x.timestamp -ℤ previous.timestamp) (pos 300000)

abbrev pub joins_after : MessageItem → List MessageItem → Bool
joins_after x [] = false
joins_after x (following ∷ rest) =
    following.sender_name == x.sender_name
    && ltb_ℤ (following.timestamp -ℤ x.timestamp) (pos 300000)

abbrev pub mark : Bool → Bool → MessageItem → MessageItem
mark first last x = record x { is_first_in_block = first; is_last_in_block = last }

-- The loop, with the row before the rest.
unfoldable pub recalculate_from : Option MessageItem → List MessageItem → List MessageItem
recalculate_from before [] = []
recalculate_from before (x ∷ xs) =
    mark (not (joins_before before x)) (not (joins_after x xs)) x ∷ recalculate_from (some x) xs

unfoldable pub recalculate_blocks : List MessageItem → List MessageItem
unfolding recalculate_from
recalculate_blocks = recalculate_from none

pub length-recalculate_from :
    (p : Option MessageItem) (xs : List MessageItem) → length (recalculate_from p xs) ≡ length xs
unfolding recalculate_from
length-recalculate_from p [] = refl
length-recalculate_from p (x ∷ xs) = ap suc (length-recalculate_from (some x) xs)

-- Along the rows a block ends where the next one begins, and the last row ends one.
abbrev pub IsPartition : Bool → List MessageItem → Type 0
IsPartition ended [] = ended ≡ true
IsPartition ended (x ∷ xs) = (x.is_first_in_block ≡ ended) × IsPartition x.is_last_in_block xs

-- The two marks of a row and the joins say the same.
abbrev pub AreBlocks : Option MessageItem → List MessageItem → Type 0
AreBlocks before [] = Unit {0}
AreBlocks before (x ∷ xs) =
    (x.is_first_in_block ≡ not (joins_before before x))
    × (x.is_last_in_block ≡ not (joins_after x xs))
    × AreBlocks (some x) xs

joins_before-mark :
    (p : Option MessageItem) (f l : Bool) (x : MessageItem)
    → joins_before p (mark f l x) ≡ joins_before p x
joins_before-mark none f l x = refl
joins_before-mark (some p) f l x = refl

joins_after-recalculate_from :
    (f l : Bool) (x : MessageItem) (xs : List MessageItem)
    → joins_after (mark f l x) (recalculate_from (some x) xs) ≡ joins_after x xs
unfolding recalculate_from
joins_after-recalculate_from f l x [] = refl
joins_after-recalculate_from f l x (y ∷ ys) = refl

recalculate_from-AreBlocks :
    (p q : Option MessageItem) (xs : List MessageItem)
    → ((y : MessageItem) → joins_before p y ≡ joins_before q y)
    → AreBlocks q (recalculate_from p xs)
unfolding recalculate_from
recalculate_from-AreBlocks p q [] same = tt
recalculate_from-AreBlocks p q (x ∷ xs) same =
    let f = not (joins_before p x) in
    let l = not (joins_after x xs) in
    (
      ap not (same x ∙ sym (joins_before-mark q f l x)),
      ap not (sym (joins_after-recalculate_from f l x xs)),
      recalculate_from-AreBlocks (some x) (some (mark f l x)) xs (λ y. refl),
    )

-- Between two rows a block ends: another sender, or five minutes at least.
abbrev pub are_apart : MessageItem → MessageItem → Bool
are_apart a b =
    not (a.sender_name == b.sender_name) || not (ltb_ℤ (b.timestamp -ℤ a.timestamp) (pos 300000))

abbrev pub begins_after : Option MessageItem → MessageItem → Bool
begins_after none x = true
begins_after (some p) x = are_apart p x

abbrev pub ends_before : MessageItem → List MessageItem → Bool
ends_before x [] = true
ends_before x (y ∷ ys) = are_apart x y

-- Each row begins and ends a block exactly as the rows beside it are apart from it.
abbrev pub AreDivided : Option MessageItem → List MessageItem → Type 0
AreDivided before [] = Unit {0}
AreDivided before (x ∷ xs) =
    (x.is_first_in_block ≡ begins_after before x)
    × (x.is_last_in_block ≡ ends_before x xs)
    × AreDivided (some x) xs

joins_before-apart :
    (before : Option MessageItem) (x : MessageItem)
    → not (joins_before before x) ≡ begins_after before x
joins_before-apart none x = refl
joins_before-apart (some p) x = ground arith

joins_after-apart :
    (x : MessageItem) (xs : List MessageItem) → not (joins_after x xs) ≡ ends_before x xs
joins_after-apart x [] = refl
joins_after-apart x (y ∷ ys) =
    ground (arith, eq_iff x.sender_name y.sender_name, eq_iff y.sender_name x.sender_name)

AreBlocks-AreDivided :
    (before : Option MessageItem) (xs : List MessageItem)
    → AreBlocks before xs
    → AreDivided before xs
AreBlocks-AreDivided before [] b = tt
AreBlocks-AreDivided before (x ∷ xs) b = (
  b.0 ∙ joins_before-apart before x,
  b.1 ∙ joins_after-apart x xs,
  AreBlocks-AreDivided (some x) xs b.2,
)

AreDivided-IsPartition :
    (before : Option MessageItem) (ended : Bool) (xs : List MessageItem)
    → ((x : MessageItem) (ys : List MessageItem) → xs ≡ x ∷ ys → ended ≡ begins_after before x)
    → (xs ≡ [] → ended ≡ true)
    → AreDivided before xs
    → IsPartition ended xs
AreDivided-IsPartition before ended [] h k d = k refl
AreDivided-IsPartition before ended (x ∷ xs) h k d = (
  d.0 ∙ sym (h x xs refl),
  AreDivided-IsPartition (some x) x.is_last_in_block xs (λ y ys same. d.1 ∙ ap (ends_before x) same)
      (λ same. d.1 ∙ ap (ends_before x) same) d.2,
)

recalculate_blocks-AreBlocks : (xs : List MessageItem) → AreBlocks none (recalculate_blocks xs)
unfolding recalculate_blocks
recalculate_blocks-AreBlocks xs = recalculate_from-AreBlocks none none xs (λ y. refl)

-- After `recalculateBlocks` a row begins a block exactly if it is the first one, or of another sender
-- than the row before it, or five minutes later at least; it ends one exactly if it is the last one, or
-- the row after it is of another sender or five minutes later at least; and the blocks part the rows:
-- each begins where the one before it ended, and the last row ends one.
pub recalculate_blocks-AreDivided :
    (xs : List MessageItem)
    → AreDivided none (recalculate_blocks xs) × IsPartition true (recalculate_blocks xs)
recalculate_blocks-AreDivided xs =
    let d = AreBlocks-AreDivided none (recalculate_blocks xs) (recalculate_blocks-AreBlocks xs) in
    (d, AreDivided-IsPartition none true (recalculate_blocks xs) (λ x ys e. refl) (λ e. refl) d)

-- Rows whose marks say the joins already are left as they are.
pub recalculate_from_of_AreBlocks :
    (p : Option MessageItem) (xs : List MessageItem) → AreBlocks p xs → recalculate_from p xs ≡ xs
unfolding recalculate_from
recalculate_from_of_AreBlocks p [] b = refl
recalculate_from_of_AreBlocks p (x ∷ xs) b =
    ap₂ ◌∷◌ (λ i. mark (sym b.0 i) (sym b.1 i) x) (recalculate_from_of_AreBlocks (some x) xs b.2)
