-- ===== src/Settings/Values.antt =====
-- The groups of the settings file in src/storage/settingsrepository.cpp: what is read after a write.
use neo_nect_desktop.Base.{◌≡◌, ap, ◌∙◌}
use neo_nect_desktop.Base.Hash.{Hash, find, find-insert}
use neo_nect_desktop.Base.Text.{String}
use neo_nect_desktop.Settings.{
  SettingsRepository, Stored, text, stored_text, group_of, set_group, value, set_value,
  get_group_name, entries_of,
}

-- The group of the profile after it was written.
pub group_of-set_group :
    (entries : Hash Stored) (r : SettingsRepository) → group_of (set_group entries r) ≡ entries
unfolding get_group_name
group_of-set_group entries r = ap entries_of (find-insert _ entries r.store)

-- A text that was written is read.
pub value-set_value :
    (key s : String) (r : SettingsRepository) → value key (set_value key (text s) r) ≡ s
value-set_value key s r =
    ap (λ g. stored_text "" (find key g)) (group_of-set_group _ r)
    ∙ ap (stored_text "") (find-insert key (text s) _)
