-- ===== src/Settings/Switch.antt =====
-- Other users and other profiles in src/storage/settingsrepository.cpp.
use Prim.Native.Char.{Char}
use Prim.Native.String
use Prim.Native.String.append
use neo_nect_desktop.Base.{Bool, false, Bool-cases, inl, inr, ◌≡◌, refl, ap, ◌∙◌, arith}
use neo_nect_desktop.Base.Hash.{find, find-past}
use neo_nect_desktop.Base.Text.{String, ◌==◌, ◌<>◌, is_empty, eq_iff}
use neo_nect_desktop.Settings.Values.{group_of-set_group}
use neo_nect_desktop.Qt.{Qt}
use neo_nect_desktop.Settings.{
  SettingsRepository, value, set_profile, set_display_name, display_name, set_avatar_url,
  avatar_url, set_username, device_id, public_key, user_key, Stored, stored_text, group_of,
  set_value, get_group_name, current_user,
}

-- A text that begins like the key of the user's name.
starts_like_username : String → Bool
starts_like_username String.[] = false
starts_like_username (String.◌∷◌ c rest) = String.◌∷◌ c String.[] == "u"

other_key : (key : String) → starts_like_username key ≡ false → ("username" == key) ≡ false
unfolding starts_like_username
other_key key h = elim (Bool-cases ("username" == key)) [
  | inr e ↦ e
  | inl e ↦
      let same : "username" ≡ key = (eq_iff "username" key).0 e in
      absurd (ground (arith, h, ap starts_like_username same))
]

-- The settings with the name of another user, and nothing at hand for the former one.
abbrev renamed : String → SettingsRepository → SettingsRepository
renamed name r = record r {
  cached_username = name;
  cached_device_id = "";
  cached_public_key = "";
  cached_display_name = "";
  cached_avatar_url = "";
}

abbrev signed_in : String → SettingsRepository → SettingsRepository
signed_in name r = set_value "username" (Stored.text name) (renamed name r)

set_username-signed_in :
    (name : String) (r : SettingsRepository)
    → (r.cached_username == name) ≡ false
    → set_username name r ≡ signed_in name r
unfolding set_username
set_username-signed_in name r h = rw h refl

-- The name of the user leaves the values of the other keys.
value-signed_in :
    (key name : String) (r : SettingsRepository)
    → starts_like_username key ≡ false
    → value key (signed_in name r) ≡ value key r
unfolding get_group_name
value-signed_in key name r h =
    ap (λ g. stored_text "" (find key g)) (group_of-set_group _ (renamed name r))
    ∙ ap (stored_text "")
        (find-past "username" key (Stored.text name) (group_of r) (other_key key h))

module _ (q : Qt) where
  -- The display name and the avatar that were set in one profile are those of the next profile that
  -- is chosen, whatever its settings say: they are still at hand.
  pub display_name-set_profile :
      (name url profile : String) (r : SettingsRepository)
      → is_empty name ≡ false
      → is_empty url ≡ false
      → ((display_name q (set_profile q profile (set_display_name q name r))).0 ≡ name)
        × ((avatar_url q (set_profile q profile (set_avatar_url q url r))).0 ≡ url)
  unfolding display_name set_profile set_display_name avatar_url set_avatar_url
  display_name-set_profile name url profile r h k = (
    rw h refl,
    elim (Bool-cases (is_empty (q.trimmed url))) [
      | inl e ↦ rw (e, k) refl
      | inr e ↦ rw (e, k) refl
    ],
  )

  -- A key that begins with another letter.
  begins :
      (c : Char) (key user : String)
      → starts_like_username (String.◌++◌ (String.◌∷◌ c key) user) ≡ (String.◌∷◌ c String.[] == "u")
  unfolding starts_like_username
  begins c key user = ap starts_like_username (append.cons c key user)

  -- What is read of a value that is not at hand.
  read-signed_in :
      (c : Char) (key name : String) (r : SettingsRepository)
      → is_empty (q.to_lower (q.trimmed name)) ≡ false
      → (String.◌∷◌ c String.[] == "u") ≡ false
      → value (user_key q (String.◌∷◌ c key) (signed_in name r)) (signed_in name r)
        ≡ value (String.◌∷◌ c key <> "_" <> q.to_lower (q.trimmed name)) r
  unfolding current_user
  read-signed_in c key name r some_name h =
      rw (some_name, some_name)
        (value-signed_in (String.◌∷◌ c key <> "_" <> q.to_lower (q.trimmed name)) name r
          (begins c key ("_" <> q.to_lower (q.trimmed name)) ∙ h))

  -- After another user signs in, whose name is not blank, the device, the key, the name and the avatar
  -- are those that the file held for that user before, under the keys with the user's name, and
  -- nothing that was at hand for the former user; a value that the file does not hold is empty.
  pub set_username-stored :
      (name : String) (r : SettingsRepository)
      → (r.cached_username == name) ≡ false
      → is_empty (q.to_lower (q.trimmed name)) ≡ false
      → let s = set_username name r in
        let user = "_" <> q.to_lower (q.trimmed name) in
        ((device_id q s).0 ≡ value ("device_id" <> user) r)
        × ((public_key q s).0 ≡ value ("public_key" <> user) r)
        × ((display_name q s).0 ≡ value ("display_name" <> user) r)
        × ((avatar_url q s).0 ≡ value ("avatar_url" <> user) r)
  unfolding device_id public_key display_name avatar_url
  set_username-stored name r h some_name =
      let e = set_username-signed_in name r h in
      (
        ap (λ s. (device_id q s).0) e ∙ read-signed_in "d" "evice_id" name r some_name refl,
        ap (λ s. (public_key q s).0) e ∙ read-signed_in "p" "ublic_key" name r some_name refl,
        ap (λ s. (display_name q s).0) e ∙ read-signed_in "d" "isplay_name" name r some_name refl,
        ap (λ s. (avatar_url q s).0) e ∙ read-signed_in "a" "vatar_url" name r some_name refl,
      )
