-- ===== src/Relay/Expired.antt =====
-- Three refusals of the server in a row.
use neo_nect_desktop.Base.{false, [], ◌∷◌, ◌++◌, ◌≡◌, refl}
use mathlib.Core.List.{append_assoc}
use neo_nect_desktop.Socket.State.{Network}
use neo_nect_desktop.Relay.{
  ISettingsRepository, RelayService, server_disconnected, device_registration_requested,
  session_unauthorized, set_auth_token,
}
use neo_nect_desktop.Relay.Session.{
  handle_401_error, stop_polling, poll_pending_messages, expired_text,
}

module _ {S : Type 0} (i : ISettingsRepository S) (n : Network) where
  -- If clearing a session leaves no token, then after three refusals in a row, from a count of 0, two
  -- attempts to register the device were asked for, polling has stopped, the session is cleared and
  -- the user told; a poll then asks nothing of the server.
  pub handle_401_error-thrice :
      (s : RelayService S)
      → s.retry_401_count ≡ 0
      → ((settings : S) → i.auth_token (i.clear_session settings) ≡ "")
      → let t = handle_401_error i n (handle_401_error i n (handle_401_error i n s)) in
        (t.log
          ≡ s.log
            ++ device_registration_requested
              ∷ device_registration_requested
              ∷ server_disconnected
              ∷ set_auth_token ""
              ∷ session_unauthorized (expired_text i n)
              ∷ [])
        × (t.is_polling ≡ false)
        × (t.retry_401_count ≡ 0)
        × (t.settings ≡ i.clear_session s.settings)
        × (poll_pending_messages i t ≡ t)
  unfolding handle_401_error stop_polling poll_pending_messages
  handle_401_error-thrice s c h =
      rw (handle_401_error, c) (simp append_assoc, refl, refl, refl, rw (h s.settings) refl)
