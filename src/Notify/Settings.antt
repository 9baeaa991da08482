-- ===== src/Notify/Settings.antt =====
-- The settings that src/core/notificationmanager.cpp keeps from one start to the next.
use neo_nect_desktop.Base.{Bool, ◌≡◌, refl}
use neo_nect_desktop.Base.Text.{String}
use neo_nect_desktop.Qt.{Qt, Variant, value_or}
use neo_nect_desktop.Notify.{NotificationManager, save_settings, load_settings}

-- A Boolean and a text read back from a variant are the ones put there.
pub record Reads (q : Qt) : Type 0 where
  pub flags : (b : Bool) → q.to_bool (Variant.flag b) ≡ b
  pub texts : (s : String) → q.to_string (Variant.text s) ≡ s

module _ (q : Qt) where
  -- If variants give Booleans and texts back, then what one manager saves, another one loads: its five
  -- settings, and nothing else of it changes.
  pub load_settings-save_settings :
      Reads q
      → (m other : NotificationManager)
      → load_settings q (save_settings m).stored other ≡ record other {
        notifications_enabled = m.notifications_enabled;
        sound_enabled = m.sound_enabled;
        preview_enabled = m.preview_enabled;
        dnd_enabled = m.dnd_enabled;
        screen_corner = m.screen_corner;
      }
  unfolding load_settings save_settings value_or
  load_settings-save_settings r m other =
      rw
        (
          r.flags m.notifications_enabled,
          r.flags m.sound_enabled,
          r.flags m.preview_enabled,
          r.flags m.dnd_enabled,
          r.texts m.screen_corner,
        )
        refl
