-- ===== src/Settings/Tests.antt =====
-- Instances of the theorems about the settings.
use neo_nect_desktop.Base.{◌≡◌, refl, true, [], ◌∷◌}
use neo_nect_desktop.Base.Json.{no_members}
use neo_nect_desktop.Base.Text.{◌<>◌}
use neo_nect_desktop.Crypto.{encrypt_aes_gcm, active_key, is_zero, generate_random_bytes}
use neo_nect_desktop.Crypto.Samples.{plain_cipher, plain_cipher-Ready, plain_cipher-IsGcm}
use neo_nect_desktop.Qt.Samples.{plain_qt}
use neo_nect_desktop.Relay.Samples.{web_of, web_of-Codec}
use neo_nect_desktop.Settings.{
  SettingsRepository, Machine, settings_repository, set_auth_token, auth_token, set_profile,
  display_name, set_username, get_machine_key, value, device_id, public_key, avatar_url,
  set_avatar_url, set_display_name,
}
use neo_nect_desktop.Settings.Token.{sealed_object, auth_token-set_auth_token}
use neo_nect_desktop.Settings.Switch.{display_name-set_profile, set_username-stored}

abbrev machine : Machine
machine = record { ssl = plain_cipher; machine_id = 1 ∷ []; fallback_id = 2 ∷ [] }

abbrev blank : SettingsRepository
blank = settings_repository plain_qt "" []

abbrev annes : SettingsRepository
annes = record blank {
  cached_display_name = "Ann";
  cached_username = "ann";
  cached_auth_token = "t";
}

encrypts_text : (encrypt_aes_gcm plain_cipher (get_machine_key machine) (8 ∷ []) []).success ≡ true
unfolding encrypt_aes_gcm get_machine_key active_key is_zero generate_random_bytes
encrypts_text = refl

auth_token-set_auth_token_example :
    let web = web_of (sealed_object (web_of no_members) machine "t") in
    (auth_token web machine
      (settings_repository plain_qt "" (set_auth_token web machine "t" blank).store)).0
    ≡ "t"
unfolding settings_repository
auth_token-set_auth_token_example =
    let web = web_of (sealed_object (web_of no_members) machine "t") in
    auth_token-set_auth_token plain_qt web machine "t" blank
      (web_of-Codec (sealed_object (web_of no_members) machine "t")) refl plain_cipher-IsGcm
      plain_cipher-Ready encrypts_text refl refl

display_name-set_profile_example :
    ((display_name plain_qt (set_profile plain_qt "work" (set_display_name plain_qt "Ann" blank))).0
      ≡ "Ann")
    × ((avatar_url plain_qt (set_profile plain_qt "work" (set_avatar_url plain_qt "a.png" blank))).0
        ≡ "a.png")
display_name-set_profile_example =
    display_name-set_profile plain_qt "Ann" "a.png" "work" blank refl refl

set_username-stored_example :
    let s = set_username "bob" annes in
    ((device_id plain_qt s).0 ≡ value ("device_id" <> "_" <> "bob") annes)
    × ((public_key plain_qt s).0 ≡ value ("public_key" <> "_" <> "bob") annes)
    × ((display_name plain_qt s).0 ≡ value ("display_name" <> "_" <> "bob") annes)
    × ((avatar_url plain_qt s).0 ≡ value ("avatar_url" <> "_" <> "bob") annes)
set_username-stored_example = set_username-stored plain_qt "bob" annes refl refl
