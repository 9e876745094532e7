-- ===== src/ArtNet/Server/Tests.antt =====
-- Runs of the Art-Net server, and the theorems about it at concrete inputs.
use ha_artnet_led.Base.{
  ℕ, Option, ◌+◌, ◌≡◌, ◌≢◌, ◌⊎◌, refl, true, [], ◌∷◌, some, none, replicate, arith,
}
use ha_artnet_led.Base.Result.{ok, err, Exc}
use ha_artnet_led.Base.Action.{◌>>=◌, current, change, calls, value_of, returns}
use ha_artnet_led.Base.Bytes.{Bytes}
use ha_artnet_led.Base.Dict.{nat_eq}
use ha_artnet_led.Base.Text.{Text}
use ha_artnet_led.Base.Text.Format.{codes}
use ha_artnet_led.ArtNet.Address.{PortAddress, make_port_address, address_eq, port_address}
use ha_artnet_led.ArtNet.Codec.{append}
use ha_artnet_led.ArtNet.Flags.{Port}
use ha_artnet_led.ArtNet.PollReply.{ArtPollReply}
use ha_artnet_led.ArtNet.Dmx.{make_dmx, serialize_dmx}
use ha_artnet_led.ArtNet.Server.{
  ArtNetServer, DmxLoop, ManualNode, Node, bytes_beq, key_beq, key_eq, port_address_eq,
  get_addresses, update_status_message, add_node_by_ip, add_manual_node,
}
use ha_artnet_led.ArtNet.Server.Replies.{new_port, add_port, update_subscribers}
use ha_artnet_led.ArtNet.Server.Sending.{
  send_dmx, replace_loop, replace_at, cancel_task, show_transmitted, create_loop, modify_port,
  start_task, loop_step, loop_from, loop_round, send_round, end_round, first_packet, later_packet,
  next_sequence,
}
use ha_artnet_led.ArtNet.Server.Nodes.{
  handle_poll_reply, learn_node, register, move_node, add_new, add_node_by_port_address,
  remove_stale_nodes, take_over, seen,
}
use ha_artnet_led.ArtNet.Server.Frame.{NoLost}
use ha_artnet_led.ArtNet.Server.Invariant.{IsIndexed}
use ha_artnet_led.ArtNet.Server.Learning.{handle_poll_reply-IsIndexed}
use ha_artnet_led.ArtNet.Server.Stuck.{refused_reply_stops_cleaning, cleaned_at}
use ha_artnet_led.ArtNet.Server.Dispatch.{new_reply}
use ha_artnet_led.ArtNet.Server.Loops.{task_at, IsNumbered}
use ha_artnet_led.ArtNet.Server.Steps.{
  make_server, Operation, open_port, add_manual, send, perform, Serves, begin, then_perform,
}
use ha_artnet_led.ArtNet.Server.Order.{one_coroutine_for_each_port}

abbrev server_ip : Bytes
server_ip = 10 ∷ 0 ∷ 0 ∷ 1 ∷ []

abbrev node_ip : Bytes
node_ip = 10 ∷ 0 ∷ 0 ∷ 9 ∷ []

abbrev server : ArtNetServer
server =
    make_server server_ip (replicate 6 2) true true true true 1 2 (codes "HA") (codes "Home") true
      true 800

abbrev output_port : Port
output_port = record new_port { output = true; sw_out = 3 }

abbrev reply : ArtPollReply
reply = record new_reply {
  source_ip = node_ip;
  net_switch = 0;
  sub_switch = 1;
  ports = output_port ∷ [];
}

-- A reply of a node whose net does not fit a port address.
abbrev wrong_reply : ArtPollReply
wrong_reply = record reply { net_switch = 16 }

server-IsIndexed : IsIndexed server
unfolding make_server
server-IsIndexed = record {
  indexed = λ a l. refl;
  keyed = λ l n e. absurd (cc);
  unique_ip = tt;
  unique_port = tt;
}

reply_returns : (handle_poll_reply 1000000 node_ip reply server).result ≡ ok tt
unfolding make_server handle_poll_reply learn_node register move_node add_new
    add_node_by_port_address get_addresses make_port_address add_node_by_ip bytes_beq key_beq
    address_eq update_status_message ◌>>=◌ current change calls value_of returns
reply_returns = refl

handle_poll_reply-IsIndexed_example :
    IsIndexed (handle_poll_reply 1000000 node_ip reply server).after
    × NoLost (handle_poll_reply 1000000 node_ip reply server).events
handle_poll_reply-IsIndexed_example =
    handle_poll_reply-IsIndexed 1000000 reply server server-IsIndexed node_ip reply_returns

refused_reply_stops_cleaning_example :
    let heard = (handle_poll_reply 1000000 node_ip wrong_reply server).after in
    let cleaning = remove_stale_nodes 22000000 (cleaned_at (12000000 ∷ 17000000 ∷ []) heard) in
    ((handle_poll_reply 1000000 node_ip wrong_reply server).result ≡ err Exc.assertion_error)
    × (x : Exc) × (cleaning.result ≡ err x)
    × (cleaning.after.nodes_by_ip ≡ heard.nodes_by_ip)
unfolding make_server bytes_beq get_addresses make_port_address
refused_reply_stops_cleaning_example =
    refused_reply_stops_cleaning 1000000 node_ip wrong_reply server Exc.assertion_error refl refl
      refl refl (12000000 ∷ 17000000 ∷ []) 22000000 (omega arith, (omega arith, tt)) (omega arith)

-- The server that has heard the reply.
abbrev learned : ArtNetServer
learned = (handle_poll_reply 1000000 node_ip reply server).after

abbrev known : Node
known = take_over reply (seen 1000000 reply none)

-- Two own ports, each with a manual node and a coroutine.
abbrev at_universe : ℕ → PortAddress
at_universe u = record { net = 0; sub_net = 0; universe = u }

abbrev lamp : ManualNode
lamp = record { addr = codes "10.0.0.20"; port = 6454 }

abbrev decode_none : Bytes → Text
decode_none bs = []

abbrev after_operation : Operation → ArtNetServer → ArtNetServer
after_operation o s = (perform decode_none o s).after

abbrev sending : ArtNetServer
sending = after_operation (send 0 (at_universe 2) (9 ∷ 9 ∷ [])) (
    after_operation (send 0 (at_universe 1) (7 ∷ 7 ∷ [])) (
      after_operation (add_manual (at_universe 2) lamp) (
        after_operation (add_manual (at_universe 1) lamp) (
          after_operation (open_port 0 (at_universe 2))
            (after_operation (open_port 0 (at_universe 1)) server)))))

Serves-sending : Serves decode_none server sending
Serves-sending = then_perform (send 0 (at_universe 2) (9 ∷ 9 ∷ [])) (
    then_perform (send 0 (at_universe 1) (7 ∷ 7 ∷ [])) (
      then_perform (add_manual (at_universe 2) lamp) (
        then_perform (add_manual (at_universe 1) lamp) (
          then_perform (open_port 0 (at_universe 2))
            (then_perform (open_port 0 (at_universe 1)) begin)))))

-- The packet that a coroutine sends next, after its first round.
abbrev next_packet : ℕ → ℕ → Bytes → Option Bytes
next_packet sequence u payload =
    elim (serialize_dmx (record {
      protocol_version = 14;
      sequence_number = sequence;
      physical = 0;
      address = at_universe u;
      payload = payload;
    })) [ ok packet ↦ some packet | err e ↦ none ]

abbrev loop_for : ℕ → Bytes → ℕ → DmxLoop
loop_for r payload sequence = record {
  address = at_universe (r + 1);
  payload = payload;
  own_port = r;
  has_manual_node = true;
  packet = next_packet sequence (r + 1) payload;
}

two_loops : sending.loops ≡ (0, loop_for 0 (7 ∷ 7 ∷ []) 2) ∷ (1, loop_for 1 (9 ∷ 9 ∷ []) 3) ∷ []
unfolding make_server perform add_port update_subscribers add_manual_node update_status_message
    send_dmx replace_loop replace_at cancel_task show_transmitted create_loop modify_port address_eq
    start_task loop_step loop_from loop_round send_round end_round first_packet later_packet
    next_sequence make_dmx serialize_dmx append port_address ◌>>=◌ current change calls value_of
    returns
two_loops = refl

abbrev first_id : ℕ
first_id = 0

abbrev second_id : ℕ
second_id = 1

one_coroutine_for_each_port_example :
    ((first_id ≡ second_id)
      ⊎ ((loop_for 0 (7 ∷ 7 ∷ []) 2).own_port ≢ (loop_for 1 (9 ∷ 9 ∷ []) 3).own_port))
    × (task_at (loop_for 0 (7 ∷ 7 ∷ []) 2).own_port sending ≡ some first_id)
    × IsNumbered sending.sequencing sending.sequence_number
one_coroutine_for_each_port_example =
    one_coroutine_for_each_port server_ip (replicate 6 2) true true true true 1 2 (codes "HA")
      (codes "Home") true true 800 decode_none sending first_id second_id
      (loop_for 0 (7 ∷ 7 ∷ []) 2) (loop_for 1 (9 ∷ 9 ∷ []) 3) Serves-sending (rw two_loops refl)
      (rw two_loops refl)
