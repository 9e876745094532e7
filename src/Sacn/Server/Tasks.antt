-- ===== src/Sacn/Server/Tasks.antt =====
-- The streaming task of `SacnServer` (custom_components/dmx/server/sacn_server.py), and the server
-- with its coroutines as a system that moves by steps.
use ha_artnet_led.Base.{
  ℕ, ◌-◌, ◌≡◌, Bool, false, not, ◌&&◌, List, [], Option, some, none, get_elem?, leb, if◌then◌else◌,
}
use ha_artnet_led.Base.Result.{ok}
use ha_artnet_led.Base.Bytes.{Bytes}
use ha_artnet_led.Base.Dict.{nat_eq, contains}
use ha_artnet_led.Base.Text.{Text}
use ha_artnet_led.Sacn.Server.{
  SacnServerConfig, SacnServer, done_task, Event, increment_sequence, update_state, Step,
  add_universe, start_server,
}
use ha_artnet_led.Sacn.Server.Send.{
  send_packet, send_dmx_data, begin_pending, finish_pending, terminate_universe, remove_universe,
  stop_server,
}

-- What one round of the loop of `_stream_universe_data` does: it sends and waits for the send, or
-- sleeps, or ends.
pub data Round : Type 0 where
  retransmit : List Event → Round
  sleep : ℕ → Round
  leave : Round

-- A round at the time `now`, of the task that holds the object at `r`.
unfoldable pub stream_round : SacnServerConfig → ℕ → ℕ → ℕ → SacnServer → Round
stream_round config now id r s = elim (get_elem? s.store r) [
  | none ↦ leave
  | some st ↦
      if s.running && (contains id s.universes && not st.termination_sent)
      then elim st.last_data [
        | none ↦ sleep (config.retransmit_interval - (now - st.last_send_time))
        | some dmx_data ↦
            if leb config.retransmit_interval (now - st.last_send_time)
            then retransmit (send_packet config id dmx_data s)
            else sleep (config.retransmit_interval - (now - st.last_send_time))
      ]
      else leave
]

-- After the send of a round.
unfoldable pub finish_round : ℕ → ℕ → SacnServer → SacnServer
finish_round now r s = elim (get_elem? s.store r) [
  | none ↦ s
  | some st ↦ update_state r (record (increment_sequence st) { last_send_time = now }) s
]

-- The task is done.
unfoldable pub end_stream : ℕ → SacnServer → SacnServer
end_stream r s = elim (get_elem? s.store r) [
  | none ↦ s
  | some st ↦ update_state r (record st { stream_task = done_task }) s
]

-- One step of the server: a method call, or a part of a coroutine, in whatever order the event loop
-- and the clients choose.
pub data Move (config : SacnServerConfig) : SacnServer → List Event → SacnServer → Type 0 where
  start : (s : SacnServer) → Move config s [] (start_server s)
  add :
      (id : ℕ) (addrs : List Text) (s : SacnServer) (t : Step Bool)
      → add_universe id addrs s ≡ ok t
      → Move config s t.events t.after
  send :
      (now id : ℕ) (dmx_data : Bytes) (s : SacnServer)
      → Move config s
          (send_dmx_data now id dmx_data s).events
          (send_dmx_data now id dmx_data s).after
  begin : (id : ℕ) (s : SacnServer) → Move config s (begin_pending config id s).0 s
  finish : (now : ℕ) (r : Option ℕ) (s : SacnServer) → Move config s [] (finish_pending now r s)
  round :
      (now id r : ℕ) (s : SacnServer) (sends : List Event)
      → stream_round config now id r s ≡ retransmit sends
      → Move config s sends s
  finish_send : (now r : ℕ) (s : SacnServer) → Move config s [] (finish_round now r s)
  end : (r : ℕ) (s : SacnServer) → Move config s [] (end_stream r s)
  terminate :
      (id : ℕ) (s : SacnServer)
      → Move config s (terminate_universe config id s).events (terminate_universe config id s).after
  remove :
      (id : ℕ) (s : SacnServer)
      → Move config s (remove_universe config id s).events (remove_universe config id s).after
  stop : (s : SacnServer) → Move config s (stop_server config s).events (stop_server config s).after

pub data Moves (config : SacnServerConfig) : SacnServer → SacnServer → Type 0 where
  rest : (s : SacnServer) → Moves config s s
  then_move :
      {s t w : SacnServer} {es : List Event}
      → Moves config s t
      → Move config t es w
      → Moves config s w

-- `SacnServer.__init__`
abbrev pub new_server : SacnServer
new_server = record { running = false; socket = false; store = []; universes = [] }
