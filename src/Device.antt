-- ===== src/Device.antt =====
-- The device service of src/services/deviceservice.cpp: registering, looking up and revoking devices.
-- A request to the server is an effect that holds its callback; the server's answer is a call of
-- its own.
pub mod Attempts
mod Tests
use neo_nect_desktop.Base.{
  ℕ, suc, Bool, true, false, ◌&&◌, ◌||◌, not, leb, List, [], ◌∷◌, ◌++◌, Option, none, some, ℤ, pos,
  eqb_ℤ, if◌then◌else◌,
}
use neo_nect_desktop.Base.Json.{
  Json, Values, no_values, value_and, Members, no_members, member_and, member, has_member, text_of,
  array, object,
}
use neo_nect_desktop.Base.Text.{String, ◌==◌, ◌<>◌, is_empty}
use neo_nect_desktop.Crypto.{Bytes}
use neo_nect_desktop.Socket.State.{Network}
use neo_nect_desktop.Relay.{ISettingsRepository, Web}
use neo_nect_desktop.Relay.Send.{device_prefix}

-- The requests of a registration: the device is posted, the user's devices are looked at because
-- there are too many or because another user may own this one, and the oldest one is deleted.
pub data Stage : Type 0 where
  posts counts claims prunes : Stage

pub data Callback : Type 0 where
  registration : Stage → String → String → ℕ → Callback
  of_key : String → Callback
  of_revocation : Callback
  of_recipient : String → Callback

pub data Effect : Type 0 where
  device_registration_result device_revocation_result : Bool → String → Effect
  device_key_fetched : String → String → Effect
  recipient_keys_fetched : String → List (String × String) → Effect
  post delete_resource : String → Bytes → Callback → Effect
  get : String → String → String → Callback → Effect

pub record DeviceService (S : Type 0) : Type 0 where
  pub settings : S
  pub log : List Effect

-- An answer of the server, its body as QJsonDocument reads it: a null document is `none`.
pub record Answer : Type 0 where
  pub status : ℤ
  pub document : Option Json
  pub no_error : Bool

-- What a call reads of QUuid and of QRandomGenerator.
pub record Fresh : Type 0 where
  pub uuid : String
  pub key_bytes : Bytes

abbrev pub ep_device_register : String
ep_device_register = "/api/v1/device/register"

abbrev pub ep_device_key : String
ep_device_key = "/api/v1/device/key"

abbrev pub ep_device : String
ep_device = "/api/v1/device"

abbrev pub ep_relay_keys : String
ep_relay_keys = "/api/v1/relay/keys"

-- toObject() and toArray() of a value, and object() of a document.
abbrev members_or_none : Json → Members
members_or_none (object m) = m
members_or_none _ = no_members

abbrev values_or_none : Json → Values
values_or_none (array vs) = vs
values_or_none _ = no_values

abbrev pub object_of : Option Json → Members
object_of none = no_members
object_of (some v) = members_or_none v

-- The devices of an answer, the one of them that is first, and whether one is among them.
abbrev pub devices_of : Answer → Values
devices_of a = values_or_none (member "devices" (object_of a.document))

abbrev pub device_of : Json → String
device_of v = text_of (member "device_id" (members_or_none v))

unfoldable pub has_device : String → Values → Bool
has_device id no_values = false
has_device id (value_and v vs) = if device_of v == id then true else has_device id vs

abbrev pub oldest : Values → Option String
oldest no_values = none
oldest (value_and v vs) = some (device_of v)

abbrev device_and_key : Json → String × String
device_and_key v = (device_of v, text_of (member "public_key" (members_or_none v)))

unfoldable pub devices_list : Values → List (String × String)
devices_list no_values = []
devices_list (value_and v vs) = device_and_key v ∷ devices_list vs

abbrev listed : Json → Values
listed (array vs) = vs
listed (object m) =
    if has_member "devices" m then values_or_none (member "devices" m) else no_values
listed _ = no_values

abbrev recipient_devices : Option Json → Values
recipient_devices none = no_values
recipient_devices (some v) = listed v

abbrev pub limit_text : String
limit_text = "Device registration failed: maximum device limit reached"

abbrev pub error_of : Answer → String
error_of a = text_of (member "error" (object_of a.document))

abbrev revocation_error : Option Json → String
revocation_error none = "Failed to revoke device"
revocation_error (some v) = text_of (member "error" (members_or_none v))

module _ {S : Type 0} where
  abbrev pub emit : Effect → DeviceService S → DeviceService S
  emit e s = record s { log = s.log ++ e ∷ [] }

  abbrev pub report : Bool → String → DeviceService S → DeviceService S
  report ok message = emit (device_registration_result ok message)

module _ {S : Type 0} (i : ISettingsRepository S) (w : Web) (n : Network) where
  abbrev device_body : String → Bytes
  device_body id = w.to_json (member_and "device_id" (Json.text id) no_members)

  abbrev pub user_of : DeviceService S → String
  user_of s = n.to_lower (n.trimmed (i.username s.settings))

  abbrev pub fresh_device : Fresh → DeviceService S → String
  fresh_device f s = "neonect-dev-" <> device_prefix i w n s.settings <> f.uuid

  -- The identifier and the key to register, from the call, the settings, or made and kept.
  unfoldable pub effective_device : String → Fresh → DeviceService S → String × DeviceService S
  effective_device device_id f s =
      let given = n.trimmed device_id in
      let stored = i.device_id s.settings in
      let made = fresh_device f s in
      if not (is_empty given)
      then (given, s)
      else if not (is_empty stored)
      then (stored, s)
      else (made, record s { settings = i.set_device_id made s.settings })

  unfoldable pub effective_key : String → Fresh → DeviceService S → String × DeviceService S
  effective_key public_key f s =
      let given = n.trimmed public_key in
      let stored = i.public_key s.settings in
      let made = w.to_base64 f.key_bytes in
      if not (is_empty given)
      then (given, s)
      else if not (is_empty stored)
      then (stored, s)
      else (made, record s { settings = i.set_public_key made s.settings })

  abbrev pub post_device : String → String → ℕ → DeviceService S → DeviceService S
  post_device device_id public_key attempt =
      let body = w.to_json (
        member_and "device_id" (Json.text device_id)
          (member_and "public_key" (Json.text public_key) no_members)) in
      emit (post ep_device_register body (registration posts device_id public_key attempt))

  unfoldable pub register_device_internal :
      String → String → ℕ → Fresh → DeviceService S → DeviceService S
  register_device_internal device_id public_key attempt f s =
      let (device, t) = effective_device device_id f s in
      let (key, t) = effective_key public_key f t in
      if leb 3 attempt
      then report false "Device registration failed: Maximum retry attempts reached." s
      else if is_empty (i.auth_token s.settings)
      then report false "Unauthorized: No authentication token." s
      else post_device device key attempt t

  unfoldable pub register_device : String → String → Fresh → DeviceService S → DeviceService S
  register_device device_id public_key = register_device_internal device_id public_key 0

  abbrev pub ask_devices : Stage → String → String → ℕ → DeviceService S → DeviceService S
  ask_devices stage device key attempt s =
      emit (get ep_relay_keys "u" (user_of s) (registration stage device key attempt)) s

  unfoldable pub on_posted : String → String → ℕ → Answer → DeviceService S → DeviceService S
  on_posted device key attempt a s =
      if a.no_error || eqb_ℤ a.status (pos 201) || eqb_ℤ a.status (pos 200)
      then report true "Device registered" s
      else if eqb_ℤ a.status (pos 400)
          && w.contains_ci (error_of a) "maximum device limit reached"
          && not (is_empty (user_of s))
      then ask_devices counts device key attempt s
      else if eqb_ℤ a.status (pos 409)
      then (if is_empty (user_of s)
          then report true "Device already registered" s
          else ask_devices claims device key attempt s)
      else report false (if is_empty (error_of a) then "Device registration failed" else error_of a)
          s

  -- The oldest device is deleted, where there is one.
  abbrev pub prune : String → String → ℕ → Option String → DeviceService S → DeviceService S
  prune device key attempt none s = report false limit_text s
  prune device key attempt (some id) s =
      emit (delete_resource ep_device (device_body id) (registration prunes device key attempt)) s

  unfoldable pub on_counted : String → String → ℕ → Answer → DeviceService S → DeviceService S
  on_counted device key attempt a s =
      if not (eqb_ℤ a.status (pos 200))
      then report false limit_text s
      else if has_device device (devices_of a)
      then report true "Device already registered" s
      else prune device key attempt (oldest (devices_of a)) s

  unfoldable pub on_pruned :
      String → String → ℕ → Answer → Fresh → DeviceService S → DeviceService S
  on_pruned device key attempt a f s =
      if eqb_ℤ a.status (pos 200)
      then register_device_internal device key (suc attempt) f s
      else report false limit_text s

  unfoldable pub on_claimed :
      String → String → ℕ → Answer → Fresh → DeviceService S → DeviceService S
  on_claimed device key attempt a f s =
      let made = fresh_device f s in
      if eqb_ℤ a.status (pos 200) && has_device device (devices_of a)
      then report true "Device already registered" s
      else register_device_internal made key (suc attempt) f
          (record s { settings = i.set_device_id made s.settings })

  unfoldable pub on_registration :
      Stage → String → String → ℕ → Answer → Fresh → DeviceService S → DeviceService S
  on_registration posts device key attempt a f s = on_posted device key attempt a s
  on_registration counts device key attempt a f s = on_counted device key attempt a s
  on_registration claims device key attempt a f s = on_claimed device key attempt a f s
  on_registration prunes device key attempt a f s = on_pruned device key attempt a f s

  unfoldable pub fetch_device_public_key : String → DeviceService S → DeviceService S
  fetch_device_public_key id s =
      if is_empty (n.trimmed id)
      then s
      else emit (get ep_device_key "device_id" (n.trimmed id) (of_key id)) s

  unfoldable pub on_key : String → Answer → DeviceService S → DeviceService S
  on_key id a s =
      let m = object_of a.document in
      emit
        (device_key_fetched id
          (if a.no_error && has_member "public_key" m then text_of (member "public_key" m) else ""))
        s

  unfoldable pub revoke_device : String → DeviceService S → DeviceService S
  revoke_device id s =
      if is_empty (n.trimmed id)
      then emit (device_revocation_result false "Device ID cannot be empty.") s
      else emit (delete_resource ep_device (device_body (n.trimmed id)) of_revocation) s

  unfoldable pub on_revoked : Answer → DeviceService S → DeviceService S
  on_revoked a s =
      emit
        (device_revocation_result a.no_error
          (if a.no_error then "Device revoked" else revocation_error a.document))
        s

  unfoldable pub fetch_recipient_keys : String → DeviceService S → DeviceService S
  fetch_recipient_keys username s =
      let target = n.to_lower (n.trimmed username) in
      if is_empty target
      then emit (recipient_keys_fetched username []) s
      else emit (get ep_relay_keys "u" target (of_recipient target)) s

  unfoldable pub on_recipient : String → Answer → DeviceService S → DeviceService S
  on_recipient target a s =
      emit
        (recipient_keys_fetched target
          (if a.no_error then devices_list (recipient_devices a.document) else []))
        s

  unfoldable pub on_answer : Callback → Answer → Fresh → DeviceService S → DeviceService S
  on_answer (registration stage device key attempt) a f s =
      on_registration stage device key attempt a f s
  on_answer (of_key id) a f s = on_key id a s
  on_answer of_revocation a f s = on_revoked a s
  on_answer (of_recipient target) a f s = on_recipient target a s
