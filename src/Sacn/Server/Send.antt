-- ===== src/Sacn/Server/Send.antt =====
-- Sending, terminating and removing universes, of `SacnServer`
-- (custom_components/dmx/server/sacn_server.py).
--
-- A coroutine is cut at its `await`s into a part that begins a send and a part that finishes it; the
-- sends of one packet to its several addresses are one burst.
use ha_artnet_led.Base.{
  ℕ, ◌-◌, Bool, true, false, ◌&&◌, List, [], ◌∷◌, ◌++◌, Option, some, none, length, get_elem?,
  replicate, drop, if◌then◌else◌,
}
use ha_artnet_led.Base.Result.{Result, ok, err, ◌>>=◌}
use ha_artnet_led.Base.Bytes.{Bytes}
use ha_artnet_led.Base.Dict.{Dict, nat_eq, contains, erase}
use ha_artnet_led.Sacn.Packet.{SacnOptions, post_init, serialize, get_multicast_address}
use ha_artnet_led.Sacn.Sync.{SacnSyncPacket, sync_post_init, sync_serialize}
use ha_artnet_led.Sacn.Server.{
  SacnServerConfig, SacnServer, UniverseState, StreamTask, no_task, running_task, cancelled_task,
  done_task, Host, Event, sendto_multicast, sendto_host, universe_removed, create_stream,
  create_send, socket_close, increment_sequence, find, update_state, Step,
}

-- `processed_data`: start code 0, then the channels, at least 25 bytes in all.
unfoldable pub processed_data : Bytes → Bytes
processed_data dmx_data =
    let channels = drop 1 dmx_data in 0x00 ∷ (channels ++ replicate (24 - length channels) 0)

-- The packet of a universe, built and serialized.
unfoldable pub packet_bytes :
    SacnServerConfig → ℕ → UniverseState → SacnOptions → Bytes → Result Bytes
packet_bytes config id st options dmx_data = do
  packet ← post_init (record {
    source_name = config.source_name;
    priority = config.priority;
    universe = id;
    sequence_number = st.sequence_number;
    options = options;
    cid = config.cid;
    dmx_data = dmx_data;
  })
  serialize packet

abbrev pub to_hosts : List Host → Bytes → List Event
to_hosts [] bytes = []
to_hosts (h ∷ hs) bytes = sendto_host h bytes ∷ to_hosts hs bytes

abbrev pub burst : ℕ → UniverseState → Bytes → List Event
burst id st bytes =
    sendto_multicast (get_multicast_address id) bytes ∷ to_hosts st.unicast_addresses bytes

abbrev pub stream_options : SacnServerConfig → SacnOptions
stream_options config = record {
  preview_data = config.enable_preview_data;
  stream_terminated = false;
  force_synchronization = config.enable_per_universe_sync;
}

-- `_send_packet`: what it sends; an exception is logged.
unfoldable pub send_packet : SacnServerConfig → ℕ → Bytes → SacnServer → List Event
send_packet config id dmx_data s = elim (find id s) [
  | none ↦ []
  | some (r, st) ↦
      elim (packet_bytes config id st (stream_options config) (processed_data dmx_data)) [
        | ok bytes ↦ if s.socket then burst id st bytes else []
        | err _ ↦ []
      ]
]

-- `if universe_state.stream_task is None or universe_state.stream_task.done()`
abbrev pub needs_stream : StreamTask → Bool
needs_stream no_task = true
needs_stream running_task = false
needs_stream cancelled_task = false
needs_stream done_task = true

-- `send_dmx_data` at the time `now`.
unfoldable pub send_dmx_data : ℕ → ℕ → Bytes → SacnServer → Step Bool
send_dmx_data now id dmx_data s =
    if s.running
    then elim (find id s) [
      | none ↦ record { result = false; after = s; events = [] }
      | some (r, st) ↦
          let fresh = needs_stream st.stream_task in
          record {
            result = true;
            after =
                update_state r
                  (record st {
                    pending_data = some dmx_data;
                    last_update_time = now;
                    stream_task = if fresh then running_task else st.stream_task;
                  })
                  s;
            events = if fresh then create_stream id ∷ create_send id ∷ [] else create_send id ∷ [];
          }
    ]
    else record { result = false; after = s; events = [] }

-- `_send_pending_frame` up to the end of its send, and the object that it goes on with.
unfoldable pub begin_pending : SacnServerConfig → ℕ → SacnServer → List Event × Option ℕ
begin_pending config id s = elim (find id s) [
  | none ↦ ([], none)
  | some (r, st) ↦ elim st.pending_data [
    | none ↦ ([], none)
    | some dmx_data ↦ (send_packet config id dmx_data s, some r)
  ]
]

-- `universe_state.pending_data.copy() if universe_state.pending_data else None`
abbrev pub truthy : Option Bytes → Option Bytes
truthy none = none
truthy (some []) = none
truthy (some (x ∷ xs)) = some (x ∷ xs)

-- What follows the send, at the time `now`, on the object as it is by then.
abbrev pub sent_state : ℕ → UniverseState → UniverseState
sent_state now st = record (increment_sequence st) {
  last_data = truthy st.pending_data;
  pending_data = none;
  last_send_time = now;
  last_update_time = now;
  termination_sent = false;
}

unfoldable pub finish_pending : ℕ → Option ℕ → SacnServer → SacnServer
finish_pending now none s = s
finish_pending now (some r) s = elim (get_elem? s.store r) [
  | none ↦ s
  | some st ↦ update_state r (sent_state now st) s
]

-- `terminate_universe`
abbrev pub cancel : StreamTask → StreamTask
cancel no_task = no_task
cancel running_task = cancelled_task
cancel cancelled_task = cancelled_task
cancel done_task = done_task

-- `universe_state.last_data or bytearray(513)`
abbrev pub last_or_zeros : Option Bytes → Bytes
last_or_zeros none = replicate 513 0
last_or_zeros (some []) = replicate 513 0
last_or_zeros (some (x ∷ xs)) = x ∷ xs

abbrev pub terminating : SacnOptions
terminating = record {
  preview_data = false;
  stream_terminated = true;
  force_synchronization = false;
}

unfoldable pub terminate_universe : SacnServerConfig → ℕ → SacnServer → Step (Unit {0})
terminate_universe config id s = elim (find id s) [
  | none ↦ record { result = tt; after = s; events = [] }
  | some (r, st) ↦
      if st.termination_sent
      then record { result = tt; after = s; events = [] }
      else (let stopped = record st { stream_task = cancel st.stream_task } in
          elim (packet_bytes config id st terminating (last_or_zeros st.last_data)) [
            | ok bytes ↦
                let sends = burst id st bytes in
                record {
                  result = tt;
                  after = update_state r (record stopped { termination_sent = true }) s;
                  events = if s.socket then sends ++ (sends ++ sends) else [];
                }
            | err _ ↦ record { result = tt; after = update_state r stopped s; events = [] }
          ])
]

-- `remove_universe`
unfoldable pub remove_universe : SacnServerConfig → ℕ → SacnServer → Step (Unit {0})
remove_universe config id s =
    if contains id s.universes
    then (let t = terminate_universe config id s in
        record {
          result = tt;
          after = record t.after { universes = erase id t.after.universes };
          events = t.events ++ (universe_removed id ∷ []);
        })
    else record { result = tt; after = s; events = [] }

-- `stop_server`
abbrev pub keys : Dict ℕ ℕ → List ℕ
keys [] = []
keys ((id, r) ∷ d) = id ∷ keys d

unfoldable pub terminate_all : SacnServerConfig → List ℕ → SacnServer → Step (Unit {0})
terminate_all config [] s = record { result = tt; after = s; events = [] }
terminate_all config (id ∷ ids) s =
    let t = terminate_universe config id s in
    let rest = terminate_all config ids t.after in
    record { result = tt; after = rest.after; events = t.events ++ rest.events }

unfoldable pub stop_server : SacnServerConfig → SacnServer → Step (Unit {0})
stop_server config s =
    if s.running
    then (let t = terminate_all config (keys s.universes) s in
        record {
          result = tt;
          after = record t.after { socket = false; running = false };
          events = if t.after.socket then t.events ++ (socket_close ∷ []) else t.events;
        })
    else record { result = tt; after = s; events = [] }

-- `send_sync_packet`
unfoldable pub send_sync_packet : SacnServerConfig → ℕ → SacnServer → List Event
send_sync_packet config sync_address s =
    let sync : SacnSyncPacket = record {
      sequence_number = 0;
      sync_address = sync_address;
      cid = config.cid;
    } in
    if s.running && s.socket
    then elim (sync_post_init sync >>= sync_serialize) [
      | ok bytes ↦ sendto_multicast (239 ∷ 255 ∷ 0 ∷ 0 ∷ []) bytes ∷ []
      | err _ ↦ []
    ]
    else []
