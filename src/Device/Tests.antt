-- ===== src/Device/Tests.antt =====
-- An instance of the theorem about registrations: every device is another user's.
use neo_nect_desktop.Base.{ℕ, [], ◌∷◌, false, none, pos}
use neo_nect_desktop.Base.Json.{no_members}
use neo_nect_desktop.Crypto.Samples.{plain_cipher}
use neo_nect_desktop.Qt.Samples.{plain_qt}
use neo_nect_desktop.Socket.Client.Samples.{network}
use neo_nect_desktop.Settings.{SettingsRepository, Machine, settings_repository}
use neo_nect_desktop.Settings.Interface.{settings_interface}
use neo_nect_desktop.Relay.{ISettingsRepository}
use neo_nect_desktop.Relay.Samples.{web_of}
use neo_nect_desktop.Device.{DeviceService, Answer, Fresh, register_device}
use neo_nect_desktop.Device.Attempts.{IsReported, exchange, register_device-IsReported}

abbrev machine : Machine
machine = record { ssl = plain_cipher; machine_id = 1 ∷ []; fallback_id = 2 ∷ [] }

abbrev interface : ISettingsRepository SettingsRepository
interface = settings_interface plain_qt (web_of no_members) machine

abbrev service : DeviceService SettingsRepository
service = record {
  settings = record (settings_repository plain_qt "" []) {
    cached_auth_token = "token";
    cached_username = "ann";
  };
  log = [];
}

abbrev conflict : ℕ → Answer
conflict k = record { status = pos 409; document = none; no_error = false }

abbrev fresh : ℕ → Fresh
fresh k = record { uuid = "u"; key_bytes = 1 ∷ 2 ∷ [] }

register_device-IsReported_example :
    IsReported
      (exchange interface
        (web_of no_members)
        network
        conflict
        fresh
        0
        9
        (register_device interface (web_of no_members) network "d1" "" (fresh 0) service)).log
register_device-IsReported_example =
    register_device-IsReported interface (web_of no_members) network conflict fresh "d1" ""
      (fresh 0) service
