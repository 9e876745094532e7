-- ===== src/Sacn/Server.antt =====
-- `SacnServer` of custom_components/dmx/server/sacn_server.py: the universes and how they are made.
--
-- A universe's state is a Python object that coroutines hold on to, so the states are a store and
-- the server's dict holds positions of it. What the server calls outside itself is an event; the
-- events of an added and of a removed universe are the calls of the two callbacks, where they are set.
pub mod Send
pub mod Tasks
pub mod Invariant
pub mod Delivery
pub mod Overlap
pub mod Termination
use ha_artnet_led.Base.{
  ℕ, zero, suc, ◌+◌, ◌*◌, ◌-◌, ◌%◌, Bool, true, false, ◌&&◌, List, [], ◌∷◌, ◌++◌, Option, some,
  none, length, get_elem?, set, ltb, leb, ◌==◌, if◌then◌else◌,
}
use ha_artnet_led.Base.Result.{Result, ok, err, Exc, ◌>>=◌}
use ha_artnet_led.Base.Bytes.{Bytes}
use ha_artnet_led.Base.Dict.{Dict, nat_eq, lookup, contains, insert}
use ha_artnet_led.Base.Text.{Text}

-- `SacnServerConfig`, with the CID that `__post_init__` fills; times are in ticks.
pub record SacnServerConfig : Type 0 where
  pub source_name : Text
  pub priority : ℕ
  pub cid : Bytes
  pub enable_per_universe_sync : Bool
  pub enable_preview_data : Bool
  pub retransmit_interval : ℕ

-- A task, cancelled ones being done only when the event loop has run them.
pub data StreamTask : Type 0 where
  no_task running_task cancelled_task done_task : StreamTask

pub record Host : Type 0 where
  pub host : Text
  pub port : ℕ

pub record UniverseState : Type 0 where
  pub sequence_number : ℕ
  pub last_data : Option Bytes
  pub stream_task : StreamTask
  pub termination_sent : Bool
  pub unicast_addresses : List Host
  pub pending_data : Option Bytes
  pub last_update_time : ℕ
  pub last_send_time : ℕ

pub record SacnServer : Type 0 where
  pub running : Bool
  pub socket : Bool
  pub store : List UniverseState
  pub universes : Dict ℕ ℕ

pub data Event : Type 0 where
  sendto_multicast : List ℕ → Bytes → Event
  sendto_host : Host → Bytes → Event
  universe_added universe_removed : ℕ → Event
  create_stream create_send : ℕ → Event
  socket_close : Event

abbrev pub sacn_port : ℕ
sacn_port = 5568

-- `increment_sequence`
unfoldable pub increment_sequence : UniverseState → UniverseState
increment_sequence st = record st { sequence_number = (st.sequence_number + 1) % 256 }

-- `UniverseState()`
abbrev pub new_state : List Host → UniverseState
new_state hosts = record {
  sequence_number = 0;
  last_data = none;
  stream_task = no_task;
  termination_sent = false;
  unicast_addresses = hosts;
  pending_data = none;
  last_update_time = 0;
  last_send_time = 0;
}

-- `self.universes[universe_id]`, with the position of the object.
abbrev pub find : ℕ → SacnServer → Option (ℕ × UniverseState)
find id s = elim (lookup id s.universes) [
  | none ↦ none
  | some r ↦ elim (get_elem? s.store r) [ none ↦ none | some st ↦ some (r, st) ]
]

abbrev pub update_state : ℕ → UniverseState → SacnServer → SacnServer
update_state r st s = record s { store = set s.store r st }

-- `addr.split(":", 1)`, if there is a colon.
abbrev pub split_colon : Text → Option (Text × Text)
split_colon [] = none
split_colon (c ∷ cs) =
    let rest = split_colon cs in
    if c == 58 then some ([], cs) else elim rest [ none ↦ none | some (a, b) ↦ some (c ∷ a, b) ]

-- `int` on ASCII digits.
abbrev pub digits : Text → ℕ → Option ℕ
digits [] acc = some acc
digits (c ∷ cs) acc =
    let rest = digits cs (acc * 10 + (c - 48)) in if leb 48 c && leb c 57 then rest else none

abbrev pub int_of : Text → Option ℕ
int_of [] = none
int_of (c ∷ cs) = digits (c ∷ cs) 0

unfoldable pub parse_hosts : List Text → Result (List Host)
parse_hosts [] = ok []
parse_hosts (addr ∷ addrs) = elim (split_colon addr) [
  | none ↦ parse_hosts addrs >>= λ hosts. ok (record { host = addr; port = sacn_port } ∷ hosts)
  | some (name, text) ↦ elim (int_of text) [
    | none ↦ err Exc.value_error
    | some n ↦ parse_hosts addrs >>= λ hosts. ok (record { host = name; port = n } ∷ hosts)
  ]
]

-- `start_server`, on a machine that opens the socket.
unfoldable pub start_server : SacnServer → SacnServer
start_server s = if s.running then s else record s { socket = true; running = true }

-- What a method that reports success leaves.
pub record Step (A : Type 0) : Type 0 where
  pub result : A
  pub after : SacnServer
  pub events : List Event

-- `add_universe`; a port that is no number raises.
unfoldable pub add_universe : ℕ → List Text → SacnServer → Result (Step Bool)
add_universe id addrs s =
    if leb 1 id && leb id 63999
    then (if contains id s.universes
        then ok (record { result = true; after = s; events = [] })
        else (parse_hosts addrs >>= λ hosts. ok (record {
          result = true;
          after = record s {
            store = s.store ++ (new_state hosts ∷ []);
            universes = insert id (length s.store) s.universes;
          };
          events = universe_added id ∷ [];
        })))
    else ok (record { result = false; after = s; events = [] })
