-- ===== src/Settings/Peers.antt =====
-- The names and avatars of peers in src/storage/settingsrepository.cpp: JSON objects in a text.
use neo_nect_desktop.Base.{Option, none, some, if◌then◌else◌}
use neo_nect_desktop.Base.Json.{
  Json, Members, no_members, member, text_of, remove_member, set_member,
}
use neo_nect_desktop.Base.Text.{String, is_empty}
use neo_nect_desktop.Qt.{Qt}
use neo_nect_desktop.Relay.{Web}
use neo_nect_desktop.Settings.{
  SettingsRepository, text, value, set_value, get_peer_display_names_key, get_peer_avatars_key,
}

module _ (q : Qt) (w : Web) where
  abbrev members_or_none : Option Members → Members
  members_or_none none = no_members
  members_or_none (some m) = m

  -- The object of a text.
  abbrev pub read_members : String → Members
  read_members json =
      if is_empty (q.trimmed json) then no_members else members_or_none (w.of_json (w.to_utf8 json))

  abbrev pub clean_user : String → String
  clean_user name = q.to_lower (q.trimmed name)

  -- The value of a peer at a key, and the object with another one, or without any.
  abbrev pub peer_value : String → String → SettingsRepository → String
  peer_value key name r =
      if is_empty (clean_user name)
      then ""
      else text_of (member (clean_user name) (read_members (value key r)))

  abbrev pub with_peer : String → String → Members → Members
  with_peer name v m =
      if is_empty (q.trimmed v)
      then remove_member (clean_user name) m
      else set_member (clean_user name) (Json.text (q.trimmed v)) m

  abbrev pub set_peer_value : String → String → String → SettingsRepository → SettingsRepository
  set_peer_value key name v r =
      if is_empty (clean_user name)
      then r
      else set_value key
          (text (w.from_utf8 (w.to_json (with_peer name v (read_members (value key r)))))) r

  unfoldable pub peer_display_name : String → SettingsRepository → String
  peer_display_name name r = peer_value (get_peer_display_names_key q r) name r

  unfoldable pub set_peer_display_name : String → String → SettingsRepository → SettingsRepository
  set_peer_display_name name v r = set_peer_value (get_peer_display_names_key q r) name v r

  unfoldable pub peer_avatar_url : String → SettingsRepository → String
  peer_avatar_url name r = peer_value (get_peer_avatars_key q r) name r

  unfoldable pub set_peer_avatar_url : String → String → SettingsRepository → SettingsRepository
  set_peer_avatar_url name url r = set_peer_value (get_peer_avatars_key q r) name url r
