-- ===== src/Sacn/Receiver.antt =====
-- `SacnReceiver` of custom_components/dmx/server/sacn_server.py.
pub mod EndToEnd
pub mod Subscriptions
use ha_artnet_led.Base.{
  ℕ, ◌/◌, ◌%◌, Bool, true, false, not, ◌&&◌, ◌||◌, List, [], ◌∷◌, ◌++◌, Option, some, none, leb,
  ◌==◌, if◌then◌else◌,
}
use ha_artnet_led.Base.Result.{Result, ok, err, ◌>>=◌}
use ha_artnet_led.Base.Bytes.{Bytes}
use ha_artnet_led.Base.Text.{Text}
use ha_artnet_led.ArtNet.Address.{PortAddress, make_port_address}
use ha_artnet_led.Sacn.Packet.{SacnPacket, deserialize, start_code, channel_data, bytes_eq}

pub record SacnReceiver : Type 0 where
  pub has_callback : Bool
  pub transport : Bool
  pub subscribed_universes : List ℕ
  pub own_source_name : Option Text

-- The data callback, and the multicast groups that the receiver joins and leaves.
pub data Event : Type 0 where
  data_callback : PortAddress → Bytes → Text → Event
  join leave : List ℕ → Event

-- A set of universes.
abbrev pub member : ℕ → List ℕ → Bool
member a [] = false
member a (x ∷ xs) = a == x || member a xs

abbrev pub add_to : ℕ → List ℕ → List ℕ
add_to a xs = if member a xs then xs else xs ++ (a ∷ [])

abbrev pub remove_from : ℕ → List ℕ → List ℕ
remove_from a [] = []
remove_from a (x ∷ xs) = if a == x then remove_from a xs else x ∷ remove_from a xs

-- `_manage_multicast_group`: the address of the group.
abbrev pub group : ℕ → List ℕ
group universe_id = 239 ∷ 255 ∷ (universe_id / 256) ∷ (universe_id % 256) ∷ []

abbrev pub joins : List ℕ → List Event
joins [] = []
joins (id ∷ ids) = join (group id) ∷ joins ids

-- `connection_made` and `connection_lost`
unfoldable pub connection_made : SacnReceiver → SacnReceiver × List Event
connection_made r = (record r { transport = true }, joins r.subscribed_universes)

unfoldable pub connection_lost : SacnReceiver → SacnReceiver
connection_lost r = record r { transport = false }

-- `self.own_source_name and packet.source_name == self.own_source_name`
abbrev pub is_own : Option Text → Text → Bool
is_own none name = false
is_own (some []) name = false
is_own (some (c ∷ cs)) name = bytes_eq name (c ∷ cs)

-- `_handle_dmx_packet`; the constructor of the port address may raise.
unfoldable pub handle_dmx_packet : SacnPacket → SacnReceiver → Result (List Event)
handle_dmx_packet packet r =
    if is_own r.own_source_name packet.source_name
    then ok []
    else (if not (member packet.universe r.subscribed_universes)
        then ok []
        else (if r.has_callback
            then (make_port_address 0 0 packet.universe >>= λ address.
                ok (data_callback address (channel_data packet) packet.source_name ∷ []))
            else ok []))

-- `datagram_received`: whatever is raised is logged.
abbrev pub received : Result (List Event) → List Event
received (ok es) = es
received (err _) = []

unfoldable pub datagram_received : Bytes → SacnReceiver → List Event
datagram_received bytes r = received (
    deserialize bytes >>= λ packet.
    if start_code packet == 0x00 then handle_dmx_packet packet r else ok [])

-- `subscribe_universe` and `unsubscribe_universe`
unfoldable pub subscribe_universe : ℕ → SacnReceiver → SacnReceiver × List Event
subscribe_universe id r =
    if leb 1 id && leb id 63999
    then (
      record r { subscribed_universes = add_to id r.subscribed_universes },
      if r.transport then join (group id) ∷ [] else [],
    )
    else (r, [])

unfoldable pub unsubscribe_universe : ℕ → SacnReceiver → SacnReceiver × List Event
unsubscribe_universe id r =
    if member id r.subscribed_universes
    then (
      record r { subscribed_universes = remove_from id r.subscribed_universes },
      if r.transport then leave (group id) ∷ [] else [],
    )
    else (r, [])
