-- ===== src/Settings.antt =====
-- The settings of src/storage/settingsrepository.cpp: the values that the repository keeps at hand,
-- and the groups of the settings file. A call takes the repository and returns it, a getter with its
-- value; each call holds the mutex from its first access to its last one.
pub mod Peers
pub mod Switch
pub mod Token
mod Tests
pub mod Interface
pub mod Values
use neo_nect_desktop.Base.{Bool, true, false, List, [], ◌∷◌, Option, none, some, if◌then◌else◌}
use neo_nect_desktop.Base.Hash.{Hash, find, insert, remove}
use neo_nect_desktop.Base.Json.{Json, Members, no_members, member_and, member, text_of}
use neo_nect_desktop.Base.Text.{String, ◌<>◌, is_empty}
use neo_nect_desktop.Crypto.{Bytes, OpenSsl, encrypt_aes_gcm, decrypt_aes_gcm, is_empty_bytes}
use neo_nect_desktop.Qt.{Qt}
use neo_nect_desktop.Relay.{Web}

-- A stored value: a text, or a list of texts.
pub data Stored : Type 0 where
  text : String → Stored
  texts : List String → Stored

-- `store` holds the groups by their names.
pub record SettingsRepository : Type 0 where
  pub profile : String
  pub cached_auth_token : String
  pub cached_username : String
  pub cached_device_id : String
  pub cached_public_key : String
  pub cached_display_name : String
  pub cached_avatar_url : String
  pub store : Hash (Hash Stored)

abbrev pub default_server_url : String
default_server_url = "http://localhost:8080"

abbrev pub default_profile_group : String
default_profile_group = "DesktopClient"

unfoldable pub get_group_name : SettingsRepository → String
get_group_name r =
    if is_empty r.profile then default_profile_group else default_profile_group <> "_" <> r.profile

abbrev pub entries_of : Option (Hash Stored) → Hash Stored
entries_of none = []
entries_of (some entries) = entries

abbrev pub group_of : SettingsRepository → Hash Stored
group_of r = entries_of (find (get_group_name r) r.store)

-- toString() and toStringList() of a value; a list of one text is no text here.
abbrev pub stored_text : String → Option Stored → String
stored_text missing (some (text s)) = s
stored_text missing (some (texts l)) = ""
stored_text missing none = missing

abbrev pub stored_texts : Option Stored → List String
stored_texts (some (text s)) = s ∷ []
stored_texts (some (texts l)) = l
stored_texts none = []

-- settings.value(key).toString(), setValue(key, v) and remove(key)
abbrev pub value : String → SettingsRepository → String
value key r = stored_text "" (find key (group_of r))

abbrev pub set_group : Hash Stored → SettingsRepository → SettingsRepository
set_group entries r = record r { store = insert (get_group_name r) entries r.store }

abbrev pub set_value : String → Stored → SettingsRepository → SettingsRepository
set_value key v r = set_group (insert key v (group_of r)) r

abbrev pub remove_value : String → SettingsRepository → SettingsRepository
remove_value key r = set_group (remove key (group_of r)) r

-- The crypto service of the machine: OpenSSL, and the hash of the machine's identifier.
pub record Machine : Type 0 where
  pub ssl : OpenSsl
  pub machine_id : Bytes
  pub fallback_id : Bytes

unfoldable pub get_machine_key : Machine → Bytes
get_machine_key m =
    m.ssl.sha256 (if is_empty_bytes m.machine_id then m.fallback_id else m.machine_id)

unfoldable pub encrypt_string : Web → Machine → String → String
encrypt_string w m s =
    let enc = encrypt_aes_gcm m.ssl (get_machine_key m) (w.to_utf8 s) [] in
    if is_empty s
    then s
    else if enc.success
    then w.to_base64 (
        w.to_json (
          member_and "ct" (Json.text (w.to_base64 enc.cipher_with_tag))
            (member_and "iv" (Json.text (w.to_base64 enc.nonce)) no_members)))
    else s

abbrev pub decrypted : Web → Machine → String → Bytes → Bytes → String
decrypted w m s ct iv =
    let dec = decrypt_aes_gcm m.ssl (get_machine_key m) ct iv [] in
    if is_empty_bytes ct
    then s
    else if is_empty_bytes iv
    then s
    else if is_empty_bytes dec
    then s
    else w.from_utf8 dec

abbrev pub decrypt_members : Web → Machine → String → Option Members → String
decrypt_members w m s none = s
decrypt_members w m s (some object) =
    decrypted w m s (w.of_base64 (text_of (member "ct" object)))
      (w.of_base64 (text_of (member "iv" object)))

unfoldable pub decrypt_string : Web → Machine → String → String
decrypt_string w m s = if is_empty s then s else decrypt_members w m s (w.of_json (w.of_base64 s))

-- A new repository for a profile, on the same file.
unfoldable pub settings_repository : Qt → String → Hash (Hash Stored) → SettingsRepository
settings_repository q profile_name store = record {
  profile = q.trimmed profile_name;
  cached_auth_token = "";
  cached_username = "";
  cached_device_id = "";
  cached_public_key = "";
  cached_display_name = "";
  cached_avatar_url = "";
  store = store;
}

unfoldable pub set_profile : Qt → String → SettingsRepository → SettingsRepository
set_profile q profile_name r = record r {
  profile = q.trimmed profile_name;
  cached_auth_token = "";
  cached_username = "";
  cached_device_id = "";
  cached_public_key = "";
}

unfoldable pub server_url : SettingsRepository → String
server_url r = stored_text default_server_url (find "server_url" (group_of r))

unfoldable pub set_server_url : String → SettingsRepository → SettingsRepository
set_server_url url r = set_value "server_url" (text url) r

unfoldable pub auth_token : Web → Machine → SettingsRepository → String × SettingsRepository
auth_token w m r =
    let read = decrypt_string w m (value "auth_token" r) in
    if is_empty r.cached_auth_token
    then (read, record r { cached_auth_token = read })
    else (r.cached_auth_token, r)

unfoldable pub set_auth_token : Web → Machine → String → SettingsRepository → SettingsRepository
set_auth_token w m token r =
    set_value "auth_token" (text (encrypt_string w m token))
      (record r { cached_auth_token = token })

unfoldable pub username : SettingsRepository → String × SettingsRepository
username r =
    if is_empty r.cached_username
    then (value "username" r, record r { cached_username = value "username" r })
    else (r.cached_username, r)

unfoldable pub set_username : String → SettingsRepository → SettingsRepository
set_username name r =
    let kept = if neo_nect_desktop.Base.Text.◌==◌ r.cached_username name then r else record r {
      cached_device_id = "";
      cached_public_key = "";
      cached_display_name = "";
      cached_avatar_url = "";
    } in
    set_value "username" (text name) (record kept { cached_username = name })

unfoldable pub clear_session : SettingsRepository → SettingsRepository
clear_session r = remove_value "username" (
    remove_value "auth_token" (record r {
      cached_auth_token = "";
      cached_username = "";
      cached_device_id = "";
      cached_public_key = "";
      cached_display_name = "";
      cached_avatar_url = "";
    }))

module _ (q : Qt) where
  -- The user whose values are meant: the cached one, or else the stored one.
  unfoldable pub current_user : SettingsRepository → String
  current_user r =
      let user = q.to_lower (q.trimmed r.cached_username) in
      if is_empty user then q.to_lower (q.trimmed (value "username" r)) else user

  -- A key of the current user.
  abbrev pub user_key : String → SettingsRepository → String
  user_key key r = let user = current_user r in if is_empty user then key else key <> "_" <> user

  abbrev pub get_device_id_key : SettingsRepository → String
  get_device_id_key = user_key "device_id"

  abbrev pub get_public_key_key : SettingsRepository → String
  get_public_key_key = user_key "public_key"

  abbrev pub get_display_name_key : SettingsRepository → String
  get_display_name_key = user_key "display_name"

  abbrev pub get_avatar_url_key : SettingsRepository → String
  get_avatar_url_key = user_key "avatar_url"

  abbrev pub get_peer_display_names_key : SettingsRepository → String
  get_peer_display_names_key = user_key "peer_display_names"

  abbrev pub get_peer_avatars_key : SettingsRepository → String
  get_peer_avatars_key = user_key "peer_avatars"

  abbrev pub get_friends_key : SettingsRepository → String
  get_friends_key = user_key "friends"

  abbrev pub get_pending_requests_key : SettingsRepository → String
  get_pending_requests_key = user_key "pending_requests"

  unfoldable pub device_id : SettingsRepository → String × SettingsRepository
  device_id r =
      let read = value (get_device_id_key r) r in
      if is_empty r.cached_device_id
      then (read, record r { cached_device_id = read })
      else (r.cached_device_id, r)

  unfoldable pub set_device_id : String → SettingsRepository → SettingsRepository
  set_device_id id r =
      set_value (get_device_id_key r) (text id) (record r { cached_device_id = id })

  unfoldable pub public_key : SettingsRepository → String × SettingsRepository
  public_key r =
      let read = value (get_public_key_key r) r in
      if is_empty r.cached_public_key
      then (read, record r { cached_public_key = read })
      else (r.cached_public_key, r)

  unfoldable pub set_public_key : String → SettingsRepository → SettingsRepository
  set_public_key key r =
      set_value (get_public_key_key r) (text key) (record r { cached_public_key = key })

  unfoldable pub display_name : SettingsRepository → String × SettingsRepository
  display_name r =
      let read = value (get_display_name_key r) r in
      if is_empty r.cached_display_name
      then (read, record r { cached_display_name = read })
      else (r.cached_display_name, r)

  unfoldable pub set_display_name : String → SettingsRepository → SettingsRepository
  set_display_name name r =
      set_value (get_display_name_key r) (text name) (record r { cached_display_name = name })

  unfoldable pub avatar_url : SettingsRepository → String × SettingsRepository
  avatar_url r =
      let read = value (get_avatar_url_key r) r in
      if is_empty r.cached_avatar_url
      then (read, record r { cached_avatar_url = read })
      else (r.cached_avatar_url, r)

  unfoldable pub set_avatar_url : String → SettingsRepository → SettingsRepository
  set_avatar_url url r =
      let kept = record r { cached_avatar_url = url } in
      if is_empty (q.trimmed url)
      then remove_value (get_avatar_url_key kept) kept
      else set_value (get_avatar_url_key kept) (text url) kept

  unfoldable pub friends : SettingsRepository → List String
  friends r = stored_texts (find (get_friends_key r) (group_of r))

  unfoldable pub set_friends : List String → SettingsRepository → SettingsRepository
  set_friends names r = set_value (get_friends_key r) (texts names) r

  unfoldable pub pending_requests : SettingsRepository → List String
  pending_requests r = stored_texts (find (get_pending_requests_key r) (group_of r))

  unfoldable pub set_pending_requests : List String → SettingsRepository → SettingsRepository
  set_pending_requests names r = set_value (get_pending_requests_key r) (texts names) r
