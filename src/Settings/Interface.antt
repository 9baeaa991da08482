-- ===== src/Settings/Interface.antt =====
-- The settings repository as the relay and the device service call it, by src/storage/isettingsrepository.h.
use neo_nect_desktop.Base.{◌≡◌, ap, ◌∙◌, none}
use neo_nect_desktop.Base.Hash.{find, find-remove, find-removed, remove}
use neo_nect_desktop.Qt.{Qt}
use neo_nect_desktop.Relay.{ISettingsRepository, Web}
use neo_nect_desktop.Settings.{
  SettingsRepository, Machine, auth_token, username, device_id, display_name, avatar_url,
  public_key, set_public_key, set_device_id, clear_session, decrypt_string, get_group_name,
  group_of, stored_text, remove_value,
}
use neo_nect_desktop.Settings.Values.{group_of-set_group}
use neo_nect_desktop.Settings.Peers.{set_peer_display_name, set_peer_avatar_url}

abbrev pub settings_interface : Qt → Web → Machine → ISettingsRepository SettingsRepository
settings_interface q w m = record {
  profile = λ r. r.profile;
  auth_token = λ r. (auth_token w m r).0;
  username = λ r. (username r).0;
  device_id = λ r. (device_id q r).0;
  public_key = λ r. (public_key q r).0;
  display_name = λ r. (display_name q r).0;
  avatar_url = λ r. (avatar_url q r).0;
  set_device_id = set_device_id q;
  set_public_key = set_public_key q;
  set_peer_display_name = set_peer_display_name q w;
  set_peer_avatar_url = set_peer_avatar_url q w;
  clear_session = clear_session;
}

-- A session that was cleared has no token, in the cache or in the file.
pub auth_token-clear_session :
    (w : Web) (m : Machine) (r : SettingsRepository) → (auth_token w m (clear_session r)).0 ≡ ""
unfolding auth_token clear_session decrypt_string get_group_name
auth_token-clear_session w m r =
    let cleared : SettingsRepository = record r {
      cached_auth_token = "";
      cached_username = "";
      cached_device_id = "";
      cached_public_key = "";
      cached_display_name = "";
      cached_avatar_url = "";
    } in
    let group = remove "auth_token" (group_of cleared) in
    let signed_out = remove_value "auth_token" cleared in
    let gone : find "auth_token" (group_of (clear_session r)) ≡ none =
      ap (find "auth_token")
        (group_of-set_group (remove "username" (group_of signed_out)) signed_out)
      ∙ find-remove "username" "auth_token" _
      ∙ ap (find "auth_token") (group_of-set_group group cleared)
      ∙ find-removed "auth_token" (group_of cleared) in
    ap (λ v. decrypt_string w m (stored_text "" v)) gone
