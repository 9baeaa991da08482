-- ===== src/Socket/Client/Retry.antt =====
-- The delays between the attempts to connect again.
use native.Mathlib.Nat.{add-zero}
use neo_nect_desktop.Base.{ℕ, zero, suc, ◌+◌, ◌≤◌, ◌≡◌, none, some, true, arith, min}
use neo_nect_desktop.Socket.State.{
  Network, WebSocketClient, WebSocketState, SocketState, set_state, backoff, on_socket_disconnected,
}
use neo_nect_desktop.Socket.Client.{
  begin_open, connect_socket, open_connection, on_reconnect_timer, on_socket_connected,
  perform_handshake,
}

backoff_bounds : (a : ℕ) → (1000 ≤ backoff a) × (backoff a ≤ 15000)
unfolding backoff
backoff_bounds zero = omega arith
backoff_bounds (suc zero) = omega arith
backoff_bounds (suc (suc zero)) = omega arith
backoff_bounds (suc (suc (suc zero))) = omega arith
backoff_bounds (suc (suc (suc (suc a)))) =
    let m : min (suc (suc (suc (suc a)))) 4 ≡ 4 = omega arith in rw m (omega arith)

-- The lost connection: waiting to connect again.
pub record Waits (attempts : ℕ) (c : WebSocketClient) : Type 0 where
  pub wanted : c.should_be_connected ≡ true
  pub down : c.state ≡ WebSocketState.disconnected
  pub socket : c.socket ≡ SocketState.unconnected
  pub attempts_made : c.reconnect_attempts ≡ attempts

module _ (n : Network) where
  -- The retry timer fires, the socket connects, and the connection is lost before the handshake is
  -- answered. A refused connection is none of these: Qt reports it by errorOccurred alone.
  pub retry_fails : WebSocketClient → WebSocketClient
  retry_fails c =
      let opening = on_reconnect_timer n (record c { timer = none }) in
      let greeting = on_socket_connected n (record opening { socket = SocketState.connected }) in
      on_socket_disconnected (record greeting { socket = SocketState.unconnected })

  abbrev pub failures : ℕ → WebSocketClient → WebSocketClient
  failures zero c = c
  failures (suc k) c = failures k (retry_fails c)

  retry_fails-Waits :
      (a : ℕ) (c : WebSocketClient)
      → Waits a c
      → Waits (a + 1) (retry_fails c) × ((retry_fails c).timer ≡ some (backoff a))
  unfolding retry_fails on_reconnect_timer open_connection begin_open connect_socket set_state
      on_socket_disconnected on_socket_connected perform_handshake
  retry_fails-Waits a c w = ground arith

  failures-timer_from :
      (k a : ℕ) (c : WebSocketClient)
      → Waits a c
      → (failures (suc k) c).timer ≡ some (backoff (a + k))
  failures-timer_from zero a c w = rw add-zero (retry_fails-Waits a c w).1
  failures-timer_from (suc k) a c w =
      let e : a + suc k ≡ a + 1 + k = omega arith in
      rw e (failures-timer_from k (a + 1) (retry_fails c) (retry_fails-Waits a c w).0)

  -- From a lost connection that waits for a retry, after `k` retries in a row whose connection is
  -- lost before the handshake, and one more, the next delay is that of `k` attempts more, and
  -- between one and fifteen seconds: opening the connection again does not start the count over.
  pub failures-timer :
      (k a : ℕ) (c : WebSocketClient)
      → Waits a c
      → ((failures (suc k) c).timer ≡ some (backoff (a + k)))
        × (1000 ≤ backoff (a + k))
        × (backoff (a + k) ≤ 15000)
  failures-timer k a c w =
      (failures-timer_from k a c w, (backoff_bounds (a + k)).0, (backoff_bounds (a + k)).1)
