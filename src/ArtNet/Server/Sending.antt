-- ===== src/ArtNet/Server/Sending.antt =====
-- `send_dmx` and `start_artdmx_loop` of custom_components/dmx/server/artnet_server.py. The coroutine
-- is cut where it sleeps: `loop_step` runs it from there, or from its start, to its next sleep or to
-- its end.
use ha_artnet_led.Base.{
  ℕ, ◌+◌, Bool, true, false, not, ◌&&◌, List, [], ◌∷◌, ◌++◌, Option, some, none, ltb, ◌==◌,
  get_elem?, set, map, if◌then◌else◌,
}
use ha_artnet_led.Base.Result.{Result, ok, err, Exc, ◌>>=◌ as ◌>>=ʳ◌}
use ha_artnet_led.Base.Action.{
  Done, ◌>>=◌, ◌>>◌, returns, nothing, current, change, calls, value_of, only_if,
}
use ha_artnet_led.Base.Bytes.{Bytes}
use ha_artnet_led.Base.Dict.{nat_eq, lookup, insert, erase, contains}
use ha_artnet_led.Base.Text.Format.{codes, decimal}
use ha_artnet_led.ArtNet.Address.{PortAddress}
use ha_artnet_led.ArtNet.Dmx.{make_dmx, serialize_dmx}
use ha_artnet_led.ArtNet.Server.{
  ArtNetServer, OwnPort, DmxLoop, ManualNode, NodeKey, Event, send_to, send_manual, start_loop,
  cancel_loop, port_address_eq, uptime, update_status_message,
}
use ha_artnet_led.ArtNet.Server.Replies.{Method, update_subscribers}

-- A change of the object at `r`.
abbrev pub modify_object : ℕ → (OwnPort → OwnPort) → ArtNetServer → Option OwnPort → ArtNetServer
modify_object r f s none = s
modify_object r f s (some o) = record s { store = set s.store r (f o) }

unfoldable pub modify_port : ℕ → (OwnPort → OwnPort) → ArtNetServer → ArtNetServer
modify_port r f s = modify_object r f s (get_elem? s.store r)

abbrev pub set_transmitted : Bool → OwnPort → OwnPort
set_transmitted b o = record o {
  port = record o.port {
    good_output_a = record o.port.good_output_a { data_being_transmitted = b };
  };
}

-- `get_node_by_port_address`, with no node where there is no set.
abbrev pub or_empty : Option (List NodeKey) → List NodeKey
or_empty none = []
or_empty (some ks) = ks

abbrev pub nodes_of : PortAddress → ArtNetServer → List NodeKey
nodes_of address s = or_empty (lookup address s.nodes_by_port_address)

abbrev pub is_empty : {A : Type 0} → List A → Bool
is_empty [] = true
is_empty (x ∷ xs) = false

-- `self.own_port_addresses[address]`
abbrev pub object_at : ℕ → Option OwnPort → Result (ℕ × OwnPort)
object_at r none = err Exc.key_error
object_at r (some o) = ok (r, o)

abbrev pub own_port_from : ArtNetServer → Option ℕ → Result (ℕ × OwnPort)
own_port_from s none = err Exc.key_error
own_port_from s (some r) = object_at r (get_elem? s.store r)

abbrev pub own_port_at : PortAddress → ArtNetServer → Result (ℕ × OwnPort)
own_port_at address s = own_port_from s (lookup address s.own_port_addresses)

-- `own_port.update_task.cancel()`; a coroutine that has ended is not affected.
unfoldable pub cancel_task : Option ℕ → Method (Unit {0})
cancel_task none = nothing
cancel_task (some id) = do
  calls (cancel_loop id ∷ [])
  change (λ s. record s { loops = erase id s.loops })

-- The flag of an own port, and the status and the replies that go with it.
unfoldable pub show_transmitted : Bool → ℕ → Method (Unit {0})
unfolding modify_port update_status_message update_subscribers
show_transmitted b r = do
  change (modify_port r (set_transmitted b))
  change update_status_message
  update_subscribers

-- A coroutine is created, and noted at its own port.
unfoldable pub create_loop : PortAddress → Bytes → ℕ → Bool → Method ℕ
unfolding modify_port
create_loop address payload r has_manual_node = do
  s ← current
  change (λ t. record t {
    loops =
        insert t.next_loop
          (record {
            address = address;
            payload = payload;
            own_port = r;
            has_manual_node = has_manual_node;
            packet = none;
          })
          t.loops;
    next_loop = t.next_loop + 1;
  })
  calls (start_loop s.next_loop ∷ [])
  change (modify_port r (λ o. record o { update_task = some s.next_loop }))
  returns s.next_loop

-- The status where no node listens.
unfoldable pub no_nodes : ℕ → PortAddress → Method (Option ℕ)
unfolding uptime
no_nodes now address = do
  s ← current
  change (λ t. if ltb (uptime now s) 3 then t else record t {
    status_message =
        if is_empty s.nodes_by_port_address
        then codes "Error - No nodes found for DMX output"
        else codes "Warning - No nodes for universe " ++ decimal address.universe;
  })
  returns none

-- The rest of `send_dmx`, where there is somebody to send to.
unfoldable pub replace_at : PortAddress → Bytes → Bool → ℕ × OwnPort → Method (Option ℕ)
unfolding cancel_task show_transmitted create_loop
replace_at address payload has_manual_node (r, own_port) = do
  cancel_task own_port.update_task
  only_if (not own_port.port.good_output_a.data_being_transmitted) (show_transmitted true r)
  task ← create_loop address payload r has_manual_node
  returns (some task)

unfoldable pub replace_loop : PortAddress → Bytes → Bool → Method (Option ℕ)
unfolding replace_at
replace_loop address payload has_manual_node = do
  s ← current
  value_of (own_port_at address s) >>= replace_at address payload has_manual_node

-- `self.sequence_number` after a round.
unfoldable pub next_sequence : ArtNetServer → ℕ
next_sequence s =
    if s.sequencing
    then (if ltb 0xFF (s.sequence_number + 1) then 0x01 else s.sequence_number + 1)
    else s.sequence_number

-- The packet of a coroutine, through the constructor the first time.
unfoldable pub first_packet : ArtNetServer → DmxLoop → Result Bytes
first_packet s l = make_dmx 14 s.sequence_number 0 l.address l.payload >>=ʳ serialize_dmx

unfoldable pub later_packet : ArtNetServer → DmxLoop → Result Bytes
later_packet s l = serialize_dmx (record {
  protocol_version = 14;
  sequence_number = s.sequence_number;
  physical = 0;
  address = l.address;
  payload = l.payload;
})

-- The send to the manual node of the address.
abbrev pub manual_round : Bytes → Option ManualNode → Method (Unit {0})
manual_round packet none = value_of (err Exc.key_error)
manual_round packet (some m) = calls (send_manual packet m.addr m.port ∷ [])

-- The sends of one round.
unfoldable pub send_round : DmxLoop → Bytes → Method (Unit {0})
unfolding show_transmitted
send_round l packet = do
  s ← current
  let nodes = nodes_of l.address s
  if not l.has_manual_node && is_empty nodes
      then show_transmitted false l.own_port
      else calls (map (λ k. send_to k.0 packet) nodes)
  t ← current
  if l.has_manual_node
      then manual_round packet (lookup l.address t.manual_nodes_by_port_address)
      else nothing

abbrev pub set_packet : ℕ → Bytes → DmxLoop → ArtNetServer → ArtNetServer
set_packet id packet l s = record s {
  loops = insert id (record l { packet = some packet }) s.loops;
}

-- The end of a round: the next packet, and a sleep or the end of the coroutine.
unfoldable pub end_round : ℕ → DmxLoop → Bytes → Method (Unit {0})
unfolding next_sequence later_packet
end_round id l packet = do
  change (λ s. record s { sequence_number = next_sequence s })
  s ← current
  next ← value_of (if s.sequencing then later_packet s l else ok packet)
  change (
      if s.retransmit_time_ms == 0
      then (λ t. record t { loops = erase id t.loops })
      else set_packet id next l)

unfoldable pub loop_round : ℕ → DmxLoop → Bytes → Method (Unit {0})
unfolding send_round end_round
loop_round id l packet = send_round l packet >> end_round id l packet

-- The coroutine from its start, or from its sleep.
unfoldable pub loop_from : ℕ → DmxLoop → Option Bytes → Method (Unit {0})
unfolding modify_port first_packet loop_round
loop_from id l (some packet) = loop_round id l packet
loop_from id l none = do
  change (modify_port l.own_port (λ o. record o { payload = some l.payload }))
  s ← current
  packet ← value_of (first_packet s l)
  loop_round id l packet

-- A step of the coroutine `id`; one that raises has ended.
abbrev pub ended : ℕ → Done ArtNetServer Event (Unit {0}) → Done ArtNetServer Event (Unit {0})
ended id d = elim d.result [
  | ok u ↦ d
  | err e ↦ record {
    after = record d.after { loops = erase id d.after.loops };
    events = d.events;
    result = ok tt;
  }
]

abbrev pub step_from : ℕ → Option DmxLoop → Method (Unit {0})
step_from id none s = nothing s
step_from id (some l) s = ended id (loop_from id l l.packet s)

unfoldable pub loop_step : ℕ → Method (Unit {0})
unfolding loop_from
loop_step id s = step_from id (lookup id s.loops) s

-- A background task starts at once: its first round runs up to its sleep before `send_dmx` goes on,
-- and an exception stays in the task. The task is noted at its own port before that round and not
-- after it, which makes no difference, as no round reads `update_task`.
unfoldable pub start_task : Option ℕ → Method (Option ℕ)
unfolding loop_step
start_task none = returns none
start_task (some id) = do loop_step id; returns (some id)

-- `send_dmx`
unfoldable pub send_dmx : ℕ → PortAddress → Bytes → Method (Option ℕ)
unfolding no_nodes replace_loop start_task
send_dmx now address payload = do
  s ← current
  let has_manual_node = contains address s.manual_nodes_by_port_address
  if not has_manual_node && is_empty (nodes_of address s)
      then no_nodes now address
      else replace_loop address payload has_manual_node >>= start_task
