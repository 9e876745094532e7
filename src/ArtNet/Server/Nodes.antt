-- ===== src/ArtNet/Server/Nodes.antt =====
-- The node tables of custom_components/dmx/server/artnet_server.py: what a poll reply does to them,
-- and the removal of nodes that are silent for too long.
use ha_artnet_led.Base.{
  ℕ, ◌+◌, Bool, false, not, ◌&&◌, ◌||◌, List, [], ◌∷◌, Option, some, none, ltb, get_elem?, length,
  ◌==◌, if◌then◌else◌,
}
use ha_artnet_led.Base.Result.{Result, ok, err, Exc}
use ha_artnet_led.Base.Action.{
  ◌>>=◌, ◌>>◌, nothing, current, change, calls, value_of, only_if, each,
}
use ha_artnet_led.Base.Bytes.{Bytes}
use ha_artnet_led.Base.Dict.{Dict, Eq, lookup, insert, erase}
use ha_artnet_led.Base.Sets.{member, add, discard}
use ha_artnet_led.ArtNet.Address.{PortAddress}
use ha_artnet_led.ArtNet.PollReply.{ArtPollReply, mute_mode}
use ha_artnet_led.ArtNet.Server.{
  ArtNetServer, Node, NodeKey, key_of, Event, node_new, node_update, node_lost, port_address_eq,
  key_eq, key_beq, bytes_beq, bytes_beq_iff, get_addresses, uptime, update_status_message,
  add_node_by_ip,
}
use ha_artnet_led.ArtNet.Server.Replies.{Method}
use ha_artnet_led.ArtNet.Server.Sending.{nodes_of, is_empty, send_dmx}

instance abbrev pub bytes_eq : Eq Bytes
bytes_eq = record { beq = bytes_beq; beq_iff = bytes_beq_iff }

-- The frame that the own port at the address sends, if it has one that is not empty.
abbrev pub frame_of : Option Bytes → Option Bytes
frame_of none = none
frame_of (some []) = none
frame_of (some (b ∷ bs)) = some (b ∷ bs)

abbrev pub own_frame : PortAddress → ArtNetServer → Option Bytes
own_frame address s = elim (lookup address s.own_port_addresses) [
  | none ↦ none
  | some r ↦ elim (get_elem? s.store r) [ none ↦ none | some o ↦ frame_of o.payload ]
]

-- The update that a new node of an address gets at once.
unfoldable pub send_current : ℕ → PortAddress → Method (Unit {0})
unfolding uptime
send_current now address = do
  s ← current
  if ltb 3 (uptime now s)
      then (elim (own_frame address s) [
        | none ↦ nothing
        | some payload ↦ send_dmx now address payload >>= λ task. nothing
      ])
      else nothing

abbrev pub set_nodes : PortAddress → List NodeKey → ArtNetServer → ArtNetServer
set_nodes address nodes s = record s {
  nodes_by_port_address = insert address nodes s.nodes_by_port_address;
}

-- `add_node_by_port_address`
unfoldable pub add_node_by_port_address : ℕ → PortAddress → NodeKey → Method (Unit {0})
unfolding send_current
add_node_by_port_address now address node = do
  s ← current
  let nodes = nodes_of address s
  if is_empty nodes
      then change (set_nodes address (node ∷ []))
      else (if member node nodes
          then nothing
          else change (set_nodes address (add node nodes)) >> send_current now address)

-- `node in self.nodes_by_ip.values()`
abbrev pub has_value : NodeKey → Dict NodeKey Node → Bool
has_value key [] = false
has_value key ((k, n) ∷ d) = key_beq key (key_of n) || has_value key d

-- The end of `remove_node_by_port_address`.
unfoldable pub lose_node : NodeKey → Method (Unit {0})
lose_node node = do
  s ← current
  only_if (not (has_value node s.nodes_by_ip) && member node.0 s.node_change_subscribers) (do
    change (λ t. record t { node_change_subscribers = discard node.0 t.node_change_subscribers })
    only_if s.has_lost_callback (calls (node_lost node ∷ [])))

abbrev pub without : PortAddress → NodeKey → List NodeKey → ArtNetServer → ArtNetServer
without address node nodes s =
    let rest = discard node nodes in
    if is_empty rest
    then record s { nodes_by_port_address = erase address s.nodes_by_port_address }
    else set_nodes address rest s

abbrev pub remove_from : PortAddress → NodeKey → Option (List NodeKey) → Method (Unit {0})
remove_from address node none = value_of (err Exc.key_error)
remove_from address node (some []) = nothing
remove_from address node (some (k ∷ ks)) = change (without address node (k ∷ ks)) >> lose_node node

-- `remove_node_by_port_address`
unfoldable pub remove_node_by_port_address : PortAddress → NodeKey → Method (Unit {0})
unfolding lose_node
remove_node_by_port_address address node = do
  s ← current
  remove_from address node (lookup address s.nodes_by_port_address)

abbrev pub reply_key : ArtPollReply → NodeKey
reply_key reply = (reply.source_ip, reply.bind_index)

-- The node that a reply is about: a new one, or the one that is known, seen now.
abbrev pub seen : ℕ → ArtPollReply → Option Node → Node
seen now reply none = record {
  name = reply.short_name;
  addr = reply.source_ip;
  bind_index = reply.bind_index;
  mac_address = reply.mac_address;
  last_seen = now;
  net_switch = 0;
  sub_switch = 0;
  ports = [];
}
seen now reply (some n) = record n { last_seen = now }

abbrev pub announce : ArtPollReply → ArtNetServer → Option Node → List Event
announce reply s none = if s.has_new_callback then node_new reply ∷ [] else []
announce reply s (some n) = if s.has_update_callback then node_update reply ∷ [] else []

-- The node takes over the reply's switches and ports.
abbrev pub take_over : ArtPollReply → Node → Node
take_over reply n = record n {
  net_switch = reply.net_switch;
  sub_switch = reply.sub_switch;
  ports = reply.ports;
}

abbrev pub difference : List PortAddress → List PortAddress → List PortAddress
difference [] ys = []
difference (x ∷ xs) ys = if member x ys then difference xs ys else x ∷ difference xs ys

-- The indicator after an address of a node other than the server itself.
abbrev pub show_mute : NodeKey → ArtNetServer → ArtNetServer
show_mute key s = if bytes_beq key.0 s.own_ip then s else record s { indicator_state = mute_mode }

-- The loop over the new addresses.
unfoldable pub add_new : ℕ → NodeKey → PortAddress → Method (Unit {0})
unfolding add_node_by_port_address
add_new now key address = do add_node_by_port_address now address key; change (show_mute key)

unfoldable pub move_node : ℕ → NodeKey → List PortAddress → List PortAddress → Method (Unit {0})
unfolding remove_node_by_port_address add_new
move_node now key old new = do
  each (λ a. remove_node_by_port_address a key) (difference old new)
  each (add_new now key) new

-- The rest of `handle_poll_reply`, once the node is in the table.
unfoldable pub register : ℕ → ArtPollReply → NodeKey → Node → Method (Unit {0})
unfolding move_node add_node_by_ip
register now reply key node = do
  old ← value_of (get_addresses node)
  change (add_node_by_ip (take_over reply node) key.0 key.1)
  new ← value_of (get_addresses (take_over reply node))
  move_node now key old new
  change update_status_message

unfoldable pub learn_node : ℕ → ArtPollReply → NodeKey → Option Node → Method (Unit {0})
unfolding register
learn_node now reply key known = do
  s ← current
  change (add_node_by_ip (seen now reply known) key.0 key.1)
  calls (announce reply s known)
  register now reply key (seen now reply known)

-- `inet_ntoa`, of which only the exception matters: an address has four bytes.
abbrev pub inet_ntoa : Bytes → Result Bytes
inet_ntoa ip = if length ip == 4 then ok ip else err Exc.os_error

-- `handle_poll_reply`. The test that the reply's source address is not zero compares with a new
-- object by identity and always holds, so that the sender's address is not taken instead.
unfoldable pub handle_poll_reply : ℕ → Bytes → ArtPollReply → Method (Unit {0})
unfolding learn_node
handle_poll_reply now addr reply = do
  source_ip ← value_of (inet_ntoa reply.source_ip)
  s ← current
  if bytes_beq addr s.own_ip
      then nothing
      else learn_node now reply (reply_key reply) (lookup (reply_key reply) s.nodes_by_ip)

-- `STALE_NODE_CUTOFF_TIME`, in microseconds.
abbrev pub stale_node_cutoff_time : ℕ
stale_node_cutoff_time = 10000000

-- `node.last_seen > cutoff_time`
abbrev pub is_fresh : ℕ → Node → Bool
is_fresh now n = ltb now (n.last_seen + stale_node_cutoff_time)

unfoldable pub remove_addresses : Node → Method (Unit {0})
unfolding remove_node_by_port_address
remove_addresses n = do
  addresses ← value_of (get_addresses n)
  each (λ a. remove_node_by_port_address a (key_of n)) addresses

-- The first loop of `remove_stale_nodes`, and the keys that it collects.
unfoldable pub drop_stale : ℕ → Dict NodeKey Node → Method (Unit {0})
unfolding remove_addresses
drop_stale now [] = nothing
drop_stale now ((k, n) ∷ d) =
    let rest = drop_stale now d in if is_fresh now n then rest else remove_addresses n >> rest

abbrev pub stale_keys : ℕ → Dict NodeKey Node → List NodeKey
stale_keys now [] = []
stale_keys now ((k, n) ∷ d) =
    let rest = stale_keys now d in if is_fresh now n then rest else k ∷ rest

abbrev pub erase_all : List NodeKey → Dict NodeKey Node → Dict NodeKey Node
erase_all [] d = d
erase_all (k ∷ ks) d = erase_all ks (erase k d)

-- `remove_stale_nodes` after its sleep, at the time `now`.
unfoldable pub remove_stale_nodes : ℕ → Method (Unit {0})
unfolding drop_stale update_status_message
remove_stale_nodes now = do
  s ← current
  drop_stale now s.nodes_by_ip
  let keys = stale_keys now s.nodes_by_ip
  change (λ t. record t { nodes_by_ip = erase_all keys t.nodes_by_ip })
  change (λ t. if is_empty keys then t else update_status_message t)
