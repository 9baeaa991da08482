-- ===== src/Relay/Session.antt =====
-- Polling, the WebSocket client's slots, expired sessions and acknowledgements of
-- src/services/relayservice.cpp.
use neo_nect_desktop.Base.{
  ℕ, suc, Bool, true, false, ◌&&◌, ◌||◌, not, ltb, List, [], ◌∷◌, ℤ, if◌then◌else◌,
}
use neo_nect_desktop.Base.Json.{member_and, no_members, Json}
use neo_nect_desktop.Base.Text.{String, ◌==◌, is_empty, contains_text}
use neo_nect_desktop.Socket.State.{Network, WebSocketClient, state_value}
use neo_nect_desktop.Socket.Client.{open_connection, close}
use neo_nect_desktop.Relay.{
  ISettingsRepository, RelayService, Web, emit, server_connected, server_disconnected,
  device_registration_requested, session_unauthorized, set_auth_token, get, post, poll_answer,
  no_answer,
}

abbrev pub ep_relay_send : String
ep_relay_send = "/api/v1/relay/send"

abbrev pub ep_relay_poll : String
ep_relay_poll = "/api/v1/relay/poll"

abbrev pub ep_relay_ack : String
ep_relay_ack = "/api/v1/relay/ack"

-- m_wsClient->isConnected()
abbrev pub is_socket_connected : WebSocketClient → Bool
is_socket_connected c = neo_nect_desktop.Base.◌==◌ (state_value c.state) 3

module _ {S : Type 0} where
  abbrev pub is_mock : RelayService S → Bool
  is_mock s = contains_text s.base_url "mock.neonect.local"

  -- The slots for the WebSocket client's connected and disconnected.
  unfoldable pub on_ws_connected : RelayService S → RelayService S
  on_ws_connected s = record (emit server_connected s) { is_ws_connected = true }

  unfoldable pub on_ws_disconnected : RelayService S → RelayService S
  on_ws_disconnected s = record (emit server_disconnected s) { is_ws_connected = false }

module _ {S : Type 0} (i : ISettingsRepository S) where
  unfoldable pub is_connected : RelayService S → Bool
  is_connected s =
      is_socket_connected s.ws_client
      || s.is_ws_connected
      || (is_mock s && s.is_polling && not (is_empty (i.auth_token s.settings)))

  -- One poll at a time, with a session.
  unfoldable pub poll_pending_messages : RelayService S → RelayService S
  poll_pending_messages s =
      if is_empty (i.auth_token s.settings)
        || is_empty (i.device_id s.settings)
        || s.is_polling_active
      then s
      else emit (get ep_relay_poll (("device_id", i.device_id s.settings) ∷ []) poll_answer)
          (record s { is_polling_active = true })

  unfoldable pub acknowledge_message : Web → ℤ → RelayService S → RelayService S
  acknowledge_message w id s =
      if is_empty (i.auth_token s.settings) || is_empty (i.device_id s.settings)
      then s
      else emit
          (post ep_relay_ack
            (w.to_json (
              member_and "device_id" (Json.text (i.device_id s.settings))
                (member_and "message_id" (Json.number id) no_members)))
            no_answer)
          s

module _ {S : Type 0} (i : ISettingsRepository S) (n : Network) where
  -- Whether the WebSocket client has to be opened for a device and a token.
  abbrev pub must_open : String → String → WebSocketClient → Bool
  must_open device_id token c =
      not (is_empty device_id)
      && not (is_empty token)
      && (not (is_socket_connected c) || not (c.device_id == device_id) || not (c.token == token))

  unfoldable pub open_socket : RelayService S → RelayService S
  open_socket s =
      let device_id = n.trimmed (i.device_id s.settings) in
      let token = n.trimmed (i.auth_token s.settings) in
      if must_open device_id token s.ws_client
      then record s { ws_client = open_connection n s.base_url device_id token s.ws_client }
      else s

  unfoldable pub start_polling : RelayService S → RelayService S
  start_polling s =
      let s = record s { is_polling = true } in
      poll_pending_messages i (if is_mock s then on_ws_connected s else open_socket s)

  unfoldable pub stop_polling : RelayService S → RelayService S
  stop_polling s =
      emit server_disconnected
        (record s { is_polling = false; ws_client = close n s.ws_client; is_ws_connected = false })

  abbrev pub expired_text : String
  expired_text = "Session expired or unauthorized. Please log in again."

  -- Two attempts to register the device again; then the session is cleared.
  unfoldable pub handle_401_error : RelayService S → RelayService S
  handle_401_error s =
      if ltb s.retry_401_count 2
      then emit device_registration_requested (record s { retry_401_count = suc s.retry_401_count })
      else let s = stop_polling (record s { retry_401_count = 0 }) in
        let s = record s { settings = i.clear_session s.settings } in
        emit (session_unauthorized expired_text) (emit (set_auth_token "") s)

  -- The slot for the WebSocket client's errors.
  unfoldable pub on_ws_error : Web → String → RelayService S → RelayService S
  on_ws_error w err s =
      if contains_text err "401" || w.contains_ci err "Unauthorized" then handle_401_error s else s
