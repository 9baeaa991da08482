-- ===== src/Notify/Reach.antt =====
-- What holds of the notification manager after any calls of its operations, in any order.
use neo_nect_desktop.Base.{
  ℕ, ◌+◌, ◌≤◌, Bool, true, false, not, List, [], ◌∷◌, ◌++◌, ◌≡◌, refl, sym, ap, ◌∙◌, subst, arith,
  Bool-cases, inl, inr, length, take, if◌then◌else◌, All, ℤ, length-take, ◌||◌,
}
use neo_nect_desktop.Base.Text.{String, is_empty, ◌==◌}
use neo_nect_desktop.Qt.{Qt, VariantMap}
use neo_nect_desktop.Notify.{
  Notification, NotificationManager, remove_down, Effect, emitted, sound, Signal, remove_first,
  remove_matching, finish_removal, emit_dismissed, is_past, lock, unlock, emit, push,
  new_notification, show_notification, show_message_notification, on_message_added,
  play_notification_sound, dismiss_notification, dismiss_by_sender, mark_channel_as_read, clear_all,
  set_notifications_enabled, set_sound_enabled, set_preview_enabled, set_dnd_enabled,
  set_screen_corner, save_settings, differ, Moment, is_of_sender, is_of_channel,
}
use neo_nect_desktop.Notify.Removal.{without, remove_down-all}

-- No signal is emitted by a call that holds the mutex.
abbrev pub IsUnlocked : Effect → Type 0
IsUnlocked (emitted s held) = held ≡ false
IsUnlocked sound = Unit {0}

-- Thirty notifications at most; the mutex is free, and was free at each signal.
pub record Inv (m : NotificationManager) : Type 0 where
  pub bound : length m.active ≤ 30
  pub free : m.locked ≡ false
  pub signals : All IsUnlocked m.trace

-- The calls. Left out is a reset of the count, by itself or by a channel without a name.
pub data Step (q : Qt) : NotificationManager → NotificationManager → Type 0 where
  shows :
      (now : Moment) (title body type channel avatar : String) (duration : ℤ) (request_id : String)
      (m : NotificationManager)
      → Step q m (show_notification q now title body type channel avatar duration request_id m)
  shows_message :
      (now : Moment) (sender text channel avatar : String) (m : NotificationManager)
      → Step q m (show_message_notification q now sender text channel avatar m)
  adds :
      (now : Moment) (fixed : ℤ → ℤ → ℕ → String) (id : String) (message : VariantMap)
      (m : NotificationManager)
      → Step q m (on_message_added q now fixed id message m)
  dismisses : (id : String) (m : NotificationManager) → Step q m (dismiss_notification id m)
  dismisses_sender :
      (sender type : String) (m : NotificationManager)
      → Step q m (dismiss_by_sender q sender type m)
  marks_read :
      (channel : String) (m : NotificationManager)
      → is_empty channel ≡ false
      → Step q m (mark_channel_as_read q channel m)
  clears : (m : NotificationManager) → Step q m (clear_all m)
  plays : (m : NotificationManager) → Step q m (play_notification_sound m)
  sets_enabled : (b : Bool) (m : NotificationManager) → Step q m (set_notifications_enabled b m)
  sets_sound : (b : Bool) (m : NotificationManager) → Step q m (set_sound_enabled b m)
  sets_preview : (b : Bool) (m : NotificationManager) → Step q m (set_preview_enabled b m)
  sets_dnd : (b : Bool) (m : NotificationManager) → Step q m (set_dnd_enabled b m)
  sets_corner : (corner : String) (m : NotificationManager) → Step q m (set_screen_corner corner m)

pub data Reach (q : Qt) (start : NotificationManager) : NotificationManager → Type 0 where
  here : Reach q start start
  next : {m m' : NotificationManager} → Reach q start m → Step q m m' → Reach q start m'

All-append :
    (xs ys : List Effect) → All IsUnlocked xs → All IsUnlocked ys → All IsUnlocked (xs ++ ys)
All-append [] ys h k = k
All-append (x ∷ xs) ys h k = (h.0, All-append xs ys h.1 k)

emit-Inv : (s : Signal) (m : NotificationManager) → Inv m → Inv (emit s m)
emit-Inv s m v = record {
  bound = v.bound;
  free = v.free;
  signals = All-append m.trace (emitted s m.locked ∷ []) v.signals (v.free, tt);
}

choose-Inv : {x y : NotificationManager} (b : Bool) → Inv x → Inv y → Inv (if b then x else y)
choose-Inv true v w = v
choose-Inv false v w = w

play_notification_sound-Inv : (m : NotificationManager) → Inv m → Inv (play_notification_sound m)
unfolding play_notification_sound
play_notification_sound-Inv m v = elim (Bool-cases (not m.sound_enabled || m.dnd_enabled)) [
  | inl e ↦ rw e v
  | inr e ↦ rw e (record {
    bound = v.bound;
    free = v.free;
    signals = All-append m.trace (sound ∷ []) v.signals (tt, tt);
  })
]

push-Inv : (q : Qt) (n : Notification) (m : NotificationManager) → Inv m → Inv (push q n m)
push-Inv q n m v =
    let kept : NotificationManager = record m {
      active = take 30 (n ∷ m.active);
      unread_count = m.unread_count + 1;
      locked = false;
    } in
    let k : Inv kept = record {
      bound = omega (arith, length-take 30 (n ∷ m.active));
      free = refl;
      signals = v.signals;
    } in
    let a =
      emit-Inv Signal.active_notifications_changed _
        (emit-Inv Signal.unread_count_changed kept k) in
    choose-Inv (not m.dnd_enabled)
      (play_notification_sound-Inv _ (emit-Inv (Signal.notification_triggered n) _ a)) a

emit_dismissed-Inv :
    (ids : List String) (m : NotificationManager) → Inv m → Inv (emit_dismissed ids m)
emit_dismissed-Inv [] m v = v
emit_dismissed-Inv (id ∷ ids) m v =
    emit_dismissed-Inv ids _ (emit-Inv (Signal.notification_dismissed id) m v)

-- A removal, once the list is within its bound.
finish_removal-Inv :
    (ids : List String) (m : NotificationManager)
    → length m.active ≤ 30
    → All IsUnlocked m.trace
    → Inv (finish_removal ids m)
finish_removal-Inv ids m b t = elim (Bool-cases (is_past m)) [
  | inl e ↦ rw e (
      emit-Inv Signal.active_notifications_changed _ (
        emit-Inv Signal.unread_count_changed _ (
          emit_dismissed-Inv ids (unlock (record m { unread_count = length m.active }))
            (record { bound = b; free = refl; signals = t }))))
  | inr e ↦ rw e (
      emit-Inv Signal.active_notifications_changed _
        (emit_dismissed-Inv ids (unlock m) (record { bound = b; free = refl; signals = t })))
]

length-without :
    (test : Notification → Bool) (xs : List Notification) → length (without test xs) ≤ length xs
length-without test [] = omega arith
length-without test (x ∷ xs) = ground (arith, length-without test xs)

remove_matching-Inv :
    (test : Notification → Bool) (m : NotificationManager) → Inv m → Inv (remove_matching test m)
remove_matching-Inv test m v =
    let removed = remove_down test (length m.active) m.active in
    let e = remove_down-all test m.active in
    finish_removal-Inv removed.1 (record (lock m) { active = removed.0 })
      (omega (arith, length-without test m.active, ap length e, v.bound)) v.signals

length-remove_first :
    (id : String) (xs : List Notification) → length (remove_first id xs) ≤ length xs
unfolding remove_first
length-remove_first id [] = omega arith
length-remove_first id (x ∷ xs) = ground (arith, length-remove_first id xs)

dismiss_notification-Inv :
    (id : String) (m : NotificationManager) → Inv m → Inv (dismiss_notification id m)
unfolding dismiss_notification
dismiss_notification-Inv id m v = choose-Inv (is_empty id) v (
    finish_removal-Inv (id ∷ []) (record (lock m) { active = remove_first id m.active })
      (omega (arith, length-remove_first id m.active, v.bound)) v.signals)

clear_all-Inv : (m : NotificationManager) → Inv m → Inv (clear_all m)
unfolding clear_all
clear_all-Inv m v = emit-Inv Signal.active_notifications_changed _ (
    emit-Inv Signal.unread_count_changed _ (
      emit-Inv Signal.notifications_cleared
        (record m { active = []; unread_count = 0; locked = false })
        (record { bound = omega arith; free = refl; signals = v.signals })))

show_notification-Inv :
    (q : Qt) (now : Moment) (title body type channel avatar : String) (duration : ℤ)
    (request_id : String) (m : NotificationManager)
    → Inv m
    → Inv (show_notification q now title body type channel avatar duration request_id m)
unfolding show_notification
show_notification-Inv q now title body type channel avatar duration request_id m v =
    choose-Inv (not m.notifications_enabled) v
      (push-Inv q (new_notification q now m title body type channel avatar duration request_id) m v)

show_message_notification-Inv :
    (q : Qt) (now : Moment) (sender text channel avatar : String) (m : NotificationManager)
    → Inv m
    → Inv (show_message_notification q now sender text channel avatar m)
unfolding show_message_notification
show_message_notification-Inv q now sender text channel avatar m v =
    show_notification-Inv q now _ _ _ _ _ _ _ m v

on_message_added-Inv :
    (q : Qt) (now : Moment) (fixed : ℤ → ℤ → ℕ → String) (id : String) (message : VariantMap)
    (m : NotificationManager)
    → Inv m
    → Inv (on_message_added q now fixed id message m)
unfolding on_message_added
on_message_added-Inv q now fixed id message m v = choose-Inv _ v (
    choose-Inv _ (show_notification-Inv q now _ _ _ _ _ _ _ m v)
      (show_message_notification-Inv q now _ _ _ _ m v))

-- Another value of a setting, kept in the settings.
setting-Inv :
    (s : Signal) (m changed : NotificationManager)
    → changed.active ≡ m.active
    → changed.locked ≡ m.locked
    → changed.trace ≡ m.trace
    → Inv m
    → Inv (emit s (save_settings changed))
unfolding save_settings
setting-Inv s m changed a l t v = emit-Inv s (save_settings changed) (record {
  bound = subst (λ xs. length xs ≤ 30) (sym a) v.bound;
  free = l ∙ v.free;
  signals = subst (All IsUnlocked) (sym t) v.signals;
})

Step-Inv : (q : Qt) {m m' : NotificationManager} → Step q m m' → Inv m → Inv m'
unfolding set_notifications_enabled set_sound_enabled set_preview_enabled set_dnd_enabled
    set_screen_corner dismiss_by_sender mark_channel_as_read
Step-Inv q (shows now title body type channel avatar duration request_id m) v =
    show_notification-Inv q now title body type channel avatar duration request_id m v
Step-Inv q (shows_message now sender text channel avatar m) v =
    show_message_notification-Inv q now sender text channel avatar m v
Step-Inv q (adds now fixed id message m) v = on_message_added-Inv q now fixed id message m v
Step-Inv q (dismisses id m) v = dismiss_notification-Inv id m v
Step-Inv q (dismisses_sender sender type m) v =
    choose-Inv (is_empty sender) v (remove_matching-Inv (is_of_sender q sender type) m v)
Step-Inv q (marks_read channel m h) v =
    rw (mark_channel_as_read, h) (remove_matching-Inv (is_of_channel q channel) m v)
Step-Inv q (clears m) v = clear_all-Inv m v
Step-Inv q (plays m) v = play_notification_sound-Inv m v
Step-Inv q (sets_enabled b m) v =
    choose-Inv (differ m.notifications_enabled b)
      (setting-Inv Signal.notifications_enabled_changed m (record m { notifications_enabled = b })
        refl refl refl v)
      v
Step-Inv q (sets_sound b m) v =
    choose-Inv (differ m.sound_enabled b)
      (setting-Inv Signal.sound_enabled_changed m (record m { sound_enabled = b }) refl refl refl v)
      v
Step-Inv q (sets_preview b m) v =
    choose-Inv (differ m.preview_enabled b)
      (setting-Inv Signal.preview_enabled_changed m (record m { preview_enabled = b }) refl refl
        refl v)
      v
Step-Inv q (sets_dnd b m) v =
    choose-Inv (differ m.dnd_enabled b)
      (setting-Inv Signal.dnd_enabled_changed m (record m { dnd_enabled = b }) refl refl refl v) v
Step-Inv q (sets_corner corner m) v =
    choose-Inv (not (m.screen_corner == corner))
      (setting-Inv Signal.screen_corner_changed m (record m { screen_corner = corner }) refl refl
        refl v)
      v

-- After any calls of the operations, without a reset of the count among them, there are thirty
-- notifications at most, the mutex is free, and no signal was emitted with the mutex held, if all
-- this held before.
pub Reach-bounded : (q : Qt) (start m : NotificationManager) → Inv start → Reach q start m → Inv m
Reach-bounded q start m v here = v
Reach-bounded q start m v (next r s) = Step-Inv q s (Reach-bounded q start _ v r)
