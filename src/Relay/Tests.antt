-- ===== src/Relay/Tests.antt =====
-- Instances of the theorems about the relay service, with the settings repository as its settings.
use neo_nect_desktop.Base.{◌≡◌, refl, true, false, [], ◌∷◌, pos}
use neo_nect_desktop.Base.Json.{no_members}
use neo_nect_desktop.Crypto.{encrypt_aes_gcm, active_key, is_zero, generate_random_bytes}
use neo_nect_desktop.Crypto.Samples.{ones, plain_cipher, plain_cipher-Ready, plain_cipher-IsGcm}
use neo_nect_desktop.Messaging.Samples.{picture}
use neo_nect_desktop.Qt.Samples.{plain_qt}
use neo_nect_desktop.Socket.Client.Samples.{network}
use neo_nect_desktop.Settings.{
  SettingsRepository, Machine, settings_repository, clear_session, username,
}
use neo_nect_desktop.Settings.Interface.{settings_interface, auth_token-clear_session}
use neo_nect_desktop.Relay.{
  ISettingsRepository, RelayService, server_disconnected, device_registration_requested,
  session_unauthorized, set_auth_token,
}
use neo_nect_desktop.Relay.Session.{
  acknowledge_message, handle_401_error, poll_pending_messages, expired_text, start_polling,
}
use neo_nect_desktop.Relay.Send.{Moment, packet_of, send_domain_message}
use neo_nect_desktop.Relay.Receive.{Reading, process_incoming_relay_item, is_processed}
use neo_nect_desktop.Relay.Once.{here, next, starts, Reach-acknowledge}
use neo_nect_desktop.Relay.Reports.{IsAnswered, send_domain_message-IsAnswered}
use neo_nect_desktop.Relay.Expired.{handle_401_error-thrice}
use neo_nect_desktop.Relay.Delivered.{IsDelivered, process-packet_of-IsDelivered}
use neo_nect_desktop.Relay.Samples.{web_of, web_of-Codec, idle_service}

abbrev machine : Machine
machine = record { ssl = plain_cipher; machine_id = 1 ∷ []; fallback_id = 2 ∷ [] }

abbrev interface : ISettingsRepository SettingsRepository
interface = settings_interface plain_qt (web_of no_members) machine

-- Ann's settings.
abbrev settings : SettingsRepository
settings = record (settings_repository plain_qt "" []) {
  cached_auth_token = "token";
  cached_username = "ann";
  cached_device_id = "d1";
}

abbrev service : RelayService SettingsRepository
service = idle_service settings

abbrev moment : Moment
moment = record { uuid = "u"; now_ms = pos 5000; now_s = pos 5 }

abbrev reading : Reading
reading = record { uuid = "u"; now = pos 5000 }

Reach-acknowledge_example :
    let web = web_of no_members in
    let s = start_polling interface network (
      process_incoming_relay_item interface web plain_qt plain_cipher reading (pos 3) "" service) in
    process_incoming_relay_item interface web plain_qt plain_cipher reading (pos 3) "b" s
    ≡ acknowledge_message interface web (pos 3) s
Reach-acknowledge_example =
    let web = web_of no_members in
    Reach-acknowledge interface web plain_qt network (pos 3) plain_cipher plain_cipher reading
      reading "" "b" service
      (start_polling interface network (
        process_incoming_relay_item interface web plain_qt plain_cipher reading (pos 3) "" service))
      (next here starts)

send_domain_message-IsAnswered_example :
    IsAnswered interface
      (web_of no_members)
      network
      plain_cipher
      moment
      picture
      service
      (send_domain_message interface
        (web_of no_members)
        network
        plain_cipher
        moment
        picture
        service).log
send_domain_message-IsAnswered_example =
    send_domain_message-IsAnswered interface (web_of no_members) network plain_cipher moment picture
      service

handle_401_error-thrice_example :
    let t =
      handle_401_error interface network
        (handle_401_error interface network (handle_401_error interface network service)) in
    (t.log
      ≡ device_registration_requested
        ∷ device_registration_requested
        ∷ server_disconnected
        ∷ set_auth_token ""
        ∷ session_unauthorized (expired_text interface network)
        ∷ [])
    × (t.is_polling ≡ false)
    × (t.retry_401_count ≡ 0)
    × (t.settings ≡ clear_session settings)
    × (poll_pending_messages interface t ≡ t)
handle_401_error-thrice_example =
    handle_401_error-thrice interface network service refl
      (auth_token-clear_session (web_of no_members) machine)

encrypts_one : (encrypt_aes_gcm plain_cipher (ones 32) (7 ∷ []) []).success ≡ true
unfolding encrypt_aes_gcm active_key is_zero generate_random_bytes
encrypts_one = refl

process-packet_of-IsDelivered_example :
    let packet = packet_of interface (web_of no_members) network moment picture settings in
    let web = web_of packet in
    let sealed = encrypt_aes_gcm plain_cipher (ones 32) (7 ∷ []) [] in
    IsDelivered interface web plain_qt (pos 3) "ann" picture (
      process_incoming_relay_item interface web plain_qt plain_cipher reading
        (pos 3)
        (web.to_base64 sealed.envelope)
        service)
unfolding is_processed packet_of username
process-packet_of-IsDelivered_example =
    let packet = packet_of interface (web_of no_members) network moment picture settings in
    process-packet_of-IsDelivered interface interface (web_of packet) plain_qt network plain_cipher
      plain_cipher moment reading (pos 3) picture settings service (web_of-Codec packet)
      plain_cipher-IsGcm plain_cipher-Ready encrypts_one refl refl
