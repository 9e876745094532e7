-- ===== src/ArtNet/Server.antt =====
-- `ArtNetServer` of custom_components/dmx/server/artnet_server.py: its state, its own ports and its
-- status.
--
-- An IPv4 address is its four bytes, without inet_aton and inet_ntoa. Times are in microseconds of the
-- clock, handed in by the caller. The objects `OwnPort` are shared with coroutines, so they live in a store,
-- and the dict of own ports holds their positions. A set of nodes is the list of their addresses and
-- bind indexes, which are what `Node.__eq__` and `Node.__hash__` read; a set is in order of insertion.
pub mod Replies
pub mod Sending
pub mod Chunks
pub mod Nodes
pub mod Frame
pub mod FrameRounds
pub mod Index
pub mod Tables
pub mod Invariant
pub mod Learning
pub mod Stale
pub mod Cleaning
pub mod Stuck
pub mod Receiving
pub mod Dispatch
pub mod Loops
pub mod Ownership
pub mod Rounds
pub mod Steps
pub mod Registering
pub mod Handlers
pub mod Order
pub mod Tests
use ha_artnet_led.Base.{
  ℕ, ◌+◌, ◌-◌, ◌*◌, ◌/◌, ◌%◌, ◌≡◌, refl, ap, Bool, true, false, ◌&&◌, ◌||◌, List, [], ◌∷◌, ◌++◌,
  Option, some, none, ltb, leb, ◌==◌, ==_iff, length, get_elem?, set, if◌then◌else◌, arith, ◌↔◌,
}
use ha_artnet_led.Base.Result.{Result, ok, err, Exc, ◌>>=◌, ◌>>◌, check}
use ha_artnet_led.Base.Bytes.{Bytes}
use ha_artnet_led.Base.Dict.{Dict, Eq, nat_eq, lookup, contains, insert, erase}
use ha_artnet_led.Base.Sets.{member, add}
use ha_artnet_led.Base.Text.{Text}
use ha_artnet_led.Base.Text.Format.{codes, decimal}
use ha_artnet_led.ArtNet.Address.{PortAddress, make_port_address, address_eq, address_lt}
use ha_artnet_led.ArtNet.Flags.{Port, art_net}
use ha_artnet_led.ArtNet.PollReply.{IndicatorState, locate_identify, normal_mode, ArtPollReply}

-- Equality of the keys of the dicts.
unfoldable pub bytes_beq : Bytes → Bytes → Bool
bytes_beq [] [] = true
bytes_beq [] (b ∷ bs) = false
bytes_beq (a ∷ as_) [] = false
bytes_beq (a ∷ as_) (b ∷ bs) = a == b && bytes_beq as_ bs

pub bytes_beq_iff : (p q : Bytes) → (bytes_beq p q ≡ true) ↔ (p ≡ q)
unfolding bytes_beq
bytes_beq_iff [] [] = ground arith
bytes_beq_iff [] (b ∷ bs) = ground arith
bytes_beq_iff (a ∷ as_) [] = ground arith
bytes_beq_iff (a ∷ as_) (b ∷ bs) = ground (arith, bytes_beq_iff as_ bs)

abbrev pub NodeKey : Type 0
NodeKey = Bytes × ℕ

unfoldable pub key_beq : NodeKey → NodeKey → Bool
key_beq (p, i) (q, j) = bytes_beq p q && i == j

pub key_beq_iff : (k l : NodeKey) → (key_beq k l ≡ true) ↔ (k ≡ l)
unfolding key_beq
key_beq_iff (p, i) (q, j) = ground (arith, bytes_beq_iff p q)

instance abbrev pub key_eq : Eq NodeKey
key_eq = record { beq = key_beq; beq_iff = key_beq_iff }

pub address_eq_iff : (p q : PortAddress) → (address_eq p q ≡ true) ↔ (p ≡ q)
unfolding address_eq
address_eq_iff p q = ground arith

instance abbrev pub port_address_eq : Eq PortAddress
port_address_eq = record { beq = address_eq; beq_iff = address_eq_iff }

pub record Node : Type 0 where
  pub name : Text
  pub addr : Bytes
  pub bind_index : ℕ
  pub mac_address : Bytes
  pub last_seen : ℕ
  pub net_switch : ℕ
  pub sub_switch : ℕ
  pub ports : List Port

abbrev pub key_of : Node → NodeKey
key_of n = (n.addr, n.bind_index)

-- `PortAddress(…)` added to the set if the port has that direction.
abbrev pub add_direction : Bool → ℕ → ℕ → ℕ → List PortAddress → Result (List PortAddress)
add_direction true net sub universe found =
    make_port_address net sub universe >>= λ a. ok (add a found)
add_direction false net sub universe found = ok found

abbrev pub port_addresses : List Port → ℕ → ℕ → List PortAddress → Result (List PortAddress)
port_addresses [] net sub found = ok found
port_addresses (p ∷ ps) net sub found = add_direction p.input net sub p.sw_in found >>= λ inputs.
    add_direction p.output net sub p.sw_out inputs >>= λ both. port_addresses ps net sub both

-- `Node.get_addresses`; a node without ports has no list or an empty one.
unfoldable pub get_addresses : Node → Result (List PortAddress)
get_addresses n = port_addresses n.ports n.net_switch n.sub_switch []

pub record ManualNode : Type 0 where
  pub addr : Text
  pub port : ℕ

pub record OwnPort : Type 0 where
  pub port : Port
  pub payload : Option Bytes
  pub update_task : Option ℕ
  pub last_input_seen : ℕ

-- A coroutine `start_artdmx_loop` that has not ended: its arguments, and after its first step the
-- packet that it sends next.
pub record DmxLoop : Type 0 where
  pub address : PortAddress
  pub payload : Bytes
  pub own_port : ℕ
  pub has_manual_node : Bool
  pub packet : Option Bytes

pub record ArtNetServer : Type 0 where
  pub own_ip : Bytes
  pub mac : Bytes
  pub has_state_callback : Bool
  pub has_new_callback : Bool
  pub has_update_callback : Bool
  pub has_lost_callback : Bool
  pub firmware_version : ℕ
  pub oem : ℕ
  pub short_name : Text
  pub long_name : Text
  pub dhcp_configured : Bool
  pub sequencing : Bool
  pub sequence_number : ℕ
  pub retransmit_time_ms : ℕ
  pub store : List OwnPort
  pub own_port_addresses : Dict PortAddress ℕ
  pub node_change_subscribers : List Bytes
  pub nodes_by_ip : Dict NodeKey Node
  pub nodes_by_port_address : Dict PortAddress (List NodeKey)
  pub manual_nodes_by_port_address : Dict PortAddress ManualNode
  pub indicator_state : IndicatorState
  pub status_message : Text
  pub art_poll_reply_counter : ℕ
  pub swout_text : Text
  pub swin_text : Text
  pub startup_time : Option ℕ
  pub loops : Dict ℕ DmxLoop
  pub next_loop : ℕ

-- What the server calls outside itself: packets to the Art-Net port of an address or to a manual
-- node, its callbacks, and coroutines that it starts.
pub data Event : Type 0 where
  send_to : Bytes → Bytes → Event
  send_manual : Bytes → Text → ℕ → Event
  node_new node_update : ArtPollReply → Event
  node_lost : NodeKey → Event
  state_update : PortAddress → Bytes → Text → Event
  reply_later : Bytes → Event
  disable_later : ℕ → Event
  start_loop cancel_loop : ℕ → Event
  fire_trigger : ℕ → ℕ → ℕ → Text → Event

-- `uptime`: the seconds of a timedelta leave out its days.
unfoldable pub uptime : ℕ → ArtNetServer → ℕ
uptime now s = elim s.startup_time [ none ↦ 0 | some start ↦ (now - start) / 1000000 % 86400 ]

-- The flags of the own ports that the status counts.
abbrev pub own_ports : Dict PortAddress ℕ → List OwnPort → List Port
own_ports [] store = []
own_ports ((a, r) ∷ d) store = elim (get_elem? store r) [
  | none ↦ own_ports d store
  | some o ↦ o.port ∷ own_ports d store
]

abbrev pub count_true : (Port → Bool) → List Port → ℕ
count_true f [] = 0
count_true f (p ∷ ps) = if f p then count_true f ps + 1 else count_true f ps

-- `", ".join(parts)`, a part that is left out being none.
abbrev pub part : Bool → Text → Text
part true text = codes ", " ++ text
part false text = []

abbrev pub counted : ℕ → Text → Text
counted n text = decimal n ++ text

-- `_update_status_message`
unfoldable pub update_status_message : ArtNetServer → ArtNetServer
unfolding decimal
update_status_message s =
    let nodes : ℕ = length s.nodes_by_ip in
    let ports : ℕ = length s.own_port_addresses in
    let own = own_ports s.own_port_addresses s.store in
    let outputs : ℕ = count_true (λ p. p.good_output_a.data_being_transmitted) own in
    let inputs : ℕ = count_true (λ p. p.good_input.data_received) own in
    let manual : ℕ = length s.manual_nodes_by_port_address in
    if nodes == 0 && ports == 0
    then record s {
      status_message = codes "Ready - No ports configured";
      indicator_state = locate_identify;
    }
    else (if nodes == 0 && ltb 0 ports
        then record s {
          status_message =
              if ltb 0 manual
              then codes "Active - "
                ++ (counted ports (codes " ports, ") ++ counted manual (codes " manual nodes"))
              else codes "Scanning - " ++ counted ports (codes " ports, no nodes found");
          indicator_state = normal_mode;
        }
        else record s {
          status_message =
              codes "Active - "
              ++ (counted nodes (codes " nodes")
                  ++ (part true (counted ports (codes " ports"))
                      ++ (part (ltb 0 outputs) (counted outputs (codes " transmitting"))
                          ++ (part (ltb 0 inputs) (counted inputs (codes " receiving"))
                              ++ part (ltb 0 manual) (counted manual (codes " manual"))))));
          indicator_state = normal_mode;
        })

-- `min` and `max` of addresses.
abbrev pub min_address : PortAddress → List (PortAddress × ℕ) → PortAddress
min_address least [] = least
min_address least ((a, r) ∷ d) = min_address (if address_lt a least then a else least) d

abbrev pub max_address : PortAddress → List (PortAddress × ℕ) → PortAddress
max_address most [] = most
max_address most ((a, r) ∷ d) = max_address (if address_lt most a then a else most) d

-- `get_port_bounds`
unfoldable pub get_port_bounds : ArtNetServer → Option (PortAddress × PortAddress)
get_port_bounds s = elim s.own_port_addresses [
  | [] ↦ none
  | (a, r) ∷ d ↦ some (min_address a d, max_address a d)
]

-- `should_handle_ports`
unfoldable pub should_handle_ports : PortAddress → PortAddress → ArtNetServer → Bool
unfolding get_port_bounds
should_handle_ports lower upper s = elim (get_port_bounds s) [
  | none ↦ false
  | some (lowest, highest) ↦ elim (address_lt highest lower || address_lt upper lowest) [
    | true ↦ false
    | false ↦ true
  ]
]

-- `add_manual_node`, of a node with a port address.
unfoldable pub add_manual_node : PortAddress → ManualNode → ArtNetServer → ArtNetServer
add_manual_node address node s =
    update_status_message (record s {
      manual_nodes_by_port_address = insert address node s.manual_nodes_by_port_address;
    })

-- `add_node_by_ip`
unfoldable pub add_node_by_ip : Node → Bytes → ℕ → ArtNetServer → ArtNetServer
add_node_by_ip node addr bind_index s = record s {
  nodes_by_ip = insert (addr, bind_index) node s.nodes_by_ip;
}
