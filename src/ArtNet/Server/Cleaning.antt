-- ===== src/ArtNet/Server/Cleaning.antt =====
-- `remove_stale_nodes` of custom_components/dmx/server/artnet_server.py as a whole.
use ha_artnet_led.Base.{ℕ, ◌≡◌, List, if◌then◌else◌}
use ha_artnet_led.Base.Dict.{Dict, lookup}
use ha_artnet_led.ArtNet.Server.{
  ArtNetServer, NodeKey, Event, port_address_eq, key_eq, update_status_message,
}
use ha_artnet_led.ArtNet.Server.Sending.{is_empty}
use ha_artnet_led.ArtNet.Server.Nodes.{stale_keys, erase_all}
use ha_artnet_led.ArtNet.Server.Invariant.{IsIndexed}
use ha_artnet_led.ArtNet.Server.Stale.{fresh_only, Drops}

-- The status after the cleaning, where a node was removed.
abbrev finish : List NodeKey → ArtNetServer → ArtNetServer
finish keys t = if is_empty keys then t else update_status_message t

-- What a cleaning at the time `now` leaves, of nodes in an indexed table.
pub record Cleaned (now : ℕ) (s t : ArtNetServer) : Type 0 where
  pub known : (l : NodeKey) → lookup l t.nodes_by_ip ≡ fresh_only now (lookup l s.nodes_by_ip)
  pub is_indexed : IsIndexed t

module _ (now : ℕ) (s t : ArtNetServer) (es : List Event) (i : IsIndexed s)
    (r : Drops now s.nodes_by_ip s t es) where
  keys : List NodeKey
  keys = stale_keys now s.nodes_by_ip

  u : ArtNetServer
  u = finish keys (record t { nodes_by_ip = erase_all keys t.nodes_by_ip })
