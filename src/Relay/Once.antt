-- ===== src/Relay/Once.antt =====
-- What the relay service does with the item of an identifier that it has seen.
use neo_nect_desktop.Base.{ℕ, Bool, ◌||◌, ◌≡◌, refl, ℤ}
use neo_nect_desktop.Base.Text.{String, contains_text}
use neo_nect_desktop.Crypto.{Bytes, OpenSsl}
use neo_nect_desktop.Qt.{Qt}
use neo_nect_desktop.Socket.State.{Network, WebSocketClient}
use neo_nect_desktop.Storage.Message.{Message}
use neo_nect_desktop.Relay.{ISettingsRepository, RelayService, Web}
use neo_nect_desktop.Relay.Session.{
  on_ws_connected, on_ws_disconnected, poll_pending_messages, acknowledge_message, start_polling,
  stop_polling, on_ws_error,
}
use neo_nect_desktop.Relay.Send.{Moment, send_domain_message, on_sent}
use neo_nect_desktop.Relay.Receive.{
  Reading, process_incoming_relay_item, on_websocket_message_received, on_polled,
}
use neo_nect_desktop.Relay.Keeps.{
  Seen, Seen-same, Seen-if, poll-Seen, start-Seen, handle_401-Seen, send-Seen, on_sent-Seen,
}
use neo_nect_desktop.Relay.Items.{process-noted, on_websocket-Seen, on_polled-Seen}

-- A call of the service, the answer to a request, or a signal of the WebSocket client.
pub data Step {S : Type 0} (i : ISettingsRepository S) (w : Web) (q : Qt) (n : Network)
    (s : RelayService S) : RelayService S → Type 0 where
  starts : Step i w q n s (start_polling i n s)
  stops : Step i w q n s (stop_polling i n s)
  polls : Step i w q n s (poll_pending_messages i s)
  answers :
      (o : OpenSsl) (readings : ℕ → Reading) (status : ℤ) (body : Bytes) (no_error : Bool)
      → Step i w q n s (on_polled i w q n o readings status body no_error s)
  sends :
      (o : OpenSsl) (now : Moment) (msg : Message)
      → Step i w q n s (send_domain_message i w n o now msg s)
  is_sent :
      (target message : String) (status : ℤ) (body : Bytes) (no_error : Bool) (err : String)
      → Step i w q n s (on_sent i w n target message status body no_error err s)
  receives :
      (o : OpenSsl) (r : Reading) (message : String)
      → Step i w q n s (on_websocket_message_received i w q o r message s)
  connects : Step i w q n s (on_ws_connected s)
  disconnects : Step i w q n s (on_ws_disconnected s)
  fails : (err : String) → Step i w q n s (on_ws_error i n w err s)
  -- the settings, the key, the client or the server's address are changed by other parts
  changes :
      (settings : S) (master : Bytes) (client : WebSocketClient) (url : String)
      → Step i w q n s
          (record s { settings = settings; master = master; ws_client = client; base_url = url })

pub data Reach {S : Type 0} (i : ISettingsRepository S) (w : Web) (q : Qt) (n : Network)
    (start : RelayService S) : RelayService S → Type 0 where
  here : Reach i w q n start start
  next :
      {s s' : RelayService S} → Reach i w q n start s → Step i w q n s s' → Reach i w q n start s'

module _ {S : Type 0} (i : ISettingsRepository S) (w : Web) (q : Qt) (n : Network) (id : ℤ) where
  Step-Seen : {s s' : RelayService S} → Step i w q n s s' → Seen id s → Seen id s'
  unfolding stop_polling on_ws_connected on_ws_disconnected on_ws_error
  Step-Seen {s} starts v = start-Seen i id n s v
  Step-Seen {s} stops v = Seen-same id s _ refl v
  Step-Seen {s} polls v = poll-Seen i id s v
  Step-Seen {s} (answers o readings status body no_error) v =
      on_polled-Seen i w q id n o readings status body no_error s v
  Step-Seen {s} (sends o now msg) v = send-Seen i id w n o now msg s v
  Step-Seen {s} (is_sent target message status body no_error err) v =
      on_sent-Seen i id w n target message status body no_error err s v
  Step-Seen {s} (receives o r message) v = on_websocket-Seen i w q id o r message s v
  Step-Seen {s} connects v = Seen-same id s _ refl v
  Step-Seen {s} disconnects v = Seen-same id s _ refl v
  Step-Seen {s} (fails err) v =
      Seen-if id _ _ (contains_text err "401" || w.contains_ci err "Unauthorized")
        (handle_401-Seen i id n s v) v
  Step-Seen {s} (changes settings master client url) v = Seen-same id s _ refl v

  Reach-Seen : (start s : RelayService S) → Seen id start → Reach i w q n start s → Seen id s
  Reach-Seen start s v here = v
  Reach-Seen start s v (next r step) = Step-Seen step (Reach-Seen start _ v r)

  -- Once the item of an identifier was processed, whatever came of it, then after any calls, answers
  -- and signals another item of that identifier is only acknowledged.
  pub Reach-acknowledge :
      (o o' : OpenSsl) (r r' : Reading) (cipher cipher' : String) (start s : RelayService S)
      → Reach i w q n (process_incoming_relay_item i w q o r id cipher start) s
      → process_incoming_relay_item i w q o' r' id cipher' s ≡ acknowledge_message i w id s
  unfolding process_incoming_relay_item
  Reach-acknowledge o o' r r' cipher cipher' start s reach =
      let v = Reach-Seen _ s (process-noted i w q id o r cipher start) reach in rw v.seen refl
