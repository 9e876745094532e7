-- ===== src/ArtNet/Server/Registering.antt =====
-- The changes of the node tables leave the coroutines in order
-- (custom_components/dmx/server/artnet_server.py).
use ha_artnet_led.Base.{
  ℕ, ◌≡◌, refl, ap, List, [], ◌∷◌, Option, some, none, arith, get_elem?, length,
}
use ha_artnet_led.Base.Action.{
  each, Holds, >>=-Holds, returns-Holds, current-Holds, value_of-Holds, if-Holds, only_if-Holds,
  each-Holds, ◌>>=◌, change, nothing,
}
use ha_artnet_led.Base.Bytes.{Bytes}
use ha_artnet_led.ArtNet.Address.{PortAddress}
use ha_artnet_led.ArtNet.PollReply.{ArtPollReply}
use ha_artnet_led.ArtNet.Server.{
  ArtNetServer, NodeKey, Node, port_address_eq, key_eq, add_node_by_ip,
}
use ha_artnet_led.ArtNet.Server.Sending.{send_dmx}
use ha_artnet_led.ArtNet.Server.Nodes.{
  send_current, add_node_by_port_address, set_nodes, lose_node, without, remove_from,
  remove_node_by_port_address, show_mute, add_new, move_node, register, learn_node, difference,
  handle_poll_reply,
}
use ha_artnet_led.ArtNet.Server.Loops.{
  SameLoops, same_loops, Keeps, keeps, task_of, SameLoops-Keeps, calls-SameLoops, status-SameLoops,
}
use ha_artnet_led.ArtNet.Server.Rounds.{send_dmx-Keeps}

-- A change of other fields.
pub change-SameLoops :
    (f : ArtNetServer → ArtNetServer)
    → ((s : ArtNetServer) → (f s).loops ≡ s.loops)
    → ((s : ArtNetServer) → (f s).next_loop ≡ s.next_loop)
    → ((s : ArtNetServer) → (f s).store ≡ s.store)
    → ((s : ArtNetServer) → (f s).sequencing ≡ s.sequencing)
    → ((s : ArtNetServer) → (f s).sequence_number ≡ s.sequence_number)
    → Holds SameLoops (change f)
unfolding change
change-SameLoops f loops next store sequencing number = record {
  at = λ s. record {
    loops = loops s;
    next_loop = next s;
    tasks = λ r. ap (λ st. task_of (get_elem? st r)) (store s);
    size = ap length (store s);
    sequencing = sequencing s;
    sequence_number = number s;
  };
}

lose_node-SameLoops : (key : NodeKey) → Holds SameLoops (lose_node key)
unfolding lose_node
lose_node-SameLoops key = >>=-Holds same_loops _ _ (current-Holds same_loops) (λ s.
    only_if-Holds same_loops _ _ (
      >>=-Holds same_loops _ _
        (change-SameLoops _ (λ t. refl) (λ t. refl) (λ t. refl) (λ t. refl) (λ t. refl))
        (λ _. only_if-Holds same_loops _ _ (calls-SameLoops _))))

without-SameLoops :
    (address : PortAddress) (key : NodeKey) (nodes : List NodeKey)
    → Holds SameLoops (change (without address key nodes))
without-SameLoops address key nodes =
    change-SameLoops _ (λ t. ground arith) (λ t. ground arith) (λ t. ground arith)
      (λ t. ground arith) (λ t. ground arith)

remove_from-SameLoops :
    (address : PortAddress) (key : NodeKey) (nodes : Option (List NodeKey))
    → Holds SameLoops (remove_from address key nodes)
remove_from-SameLoops address key none = value_of-Holds same_loops _
remove_from-SameLoops address key (some []) = returns-Holds same_loops tt
remove_from-SameLoops address key (some (k ∷ ks)) =
    >>=-Holds same_loops _ _ (without-SameLoops address key (k ∷ ks)) (λ _. lose_node-SameLoops key)

remove_node-SameLoops :
    (address : PortAddress) (key : NodeKey)
    → Holds SameLoops (remove_node_by_port_address address key)
unfolding remove_node_by_port_address
remove_node-SameLoops address key =
    >>=-Holds same_loops _ _ (current-Holds same_loops) (λ s. remove_from-SameLoops address key _)

own_frame-Keeps :
    (now : ℕ) (address : PortAddress) (frame : Option Bytes)
    → Holds Keeps (elim frame [
      | none ↦ nothing
      | some payload ↦ send_dmx now address payload >>= λ task. nothing
    ])
own_frame-Keeps now address none = returns-Holds keeps tt
own_frame-Keeps now address (some payload) =
    >>=-Holds keeps _ _ (send_dmx-Keeps now address payload) (λ _. returns-Holds keeps tt)

add_node-Keeps :
    (now : ℕ) (address : PortAddress) (key : NodeKey)
    → Holds Keeps (add_node_by_port_address now address key)
unfolding add_node_by_port_address send_current
add_node-Keeps now address key = >>=-Holds keeps _ _ (current-Holds keeps) (λ s.
    if-Holds keeps _ _ _ (set-Keeps _) (
      if-Holds keeps _ _ _ (returns-Holds keeps tt) (
        >>=-Holds keeps _ _ (set-Keeps _) (λ _.
          >>=-Holds keeps _ _ (current-Holds keeps)
            (λ t. if-Holds keeps _ _ _ (own_frame-Keeps now address _) (returns-Holds keeps tt))))))
  where
    set-Keeps : (nodes : List NodeKey) → Holds Keeps (change (set_nodes address nodes))
    set-Keeps nodes =
        SameLoops-Keeps _
          (change-SameLoops _ (λ t. refl) (λ t. refl) (λ t. refl) (λ t. refl) (λ t. refl))

show_mute-Keeps : (key : NodeKey) → Holds Keeps (change (show_mute key))
show_mute-Keeps key = SameLoops-Keeps _ (
    change-SameLoops _ (λ t. ground arith) (λ t. ground arith) (λ t. ground arith)
      (λ t. ground arith) (λ t. ground arith))

pub remove_all-Keeps :
    (key : NodeKey) (addresses : List PortAddress)
    → Holds Keeps (each (λ a. remove_node_by_port_address a key) addresses)
remove_all-Keeps key addresses =
    each-Holds keeps _ addresses (λ a. SameLoops-Keeps _ (remove_node-SameLoops a key))

move_node-Keeps :
    (now : ℕ) (key : NodeKey) (old new : List PortAddress) → Holds Keeps (move_node now key old new)
unfolding move_node add_new
move_node-Keeps now key old new =
    >>=-Holds keeps _ _ (remove_all-Keeps key (difference old new)) (λ _.
      each-Holds keeps _ new
        (λ a. >>=-Holds keeps _ _ (add_node-Keeps now a key) (λ _. show_mute-Keeps key)))

add_by_ip-Keeps :
    (node : Node) (ip : Bytes) (index : ℕ) → Holds Keeps (change (add_node_by_ip node ip index))
unfolding add_node_by_ip
add_by_ip-Keeps node ip index =
    SameLoops-Keeps _
      (change-SameLoops _ (λ t. refl) (λ t. refl) (λ t. refl) (λ t. refl) (λ t. refl))

pub handle_poll_reply-Keeps :
    (now : ℕ) (addr : Bytes) (reply : ArtPollReply) → Holds Keeps (handle_poll_reply now addr reply)
unfolding handle_poll_reply learn_node register
handle_poll_reply-Keeps now addr reply = >>=-Holds keeps _ _ (value_of-Holds keeps _) (λ _.
    >>=-Holds keeps _ _ (current-Holds keeps) (λ s. if-Holds keeps _ _ _ (returns-Holds keeps tt) (
      >>=-Holds keeps _ _ (current-Holds keeps) (λ t.
        >>=-Holds keeps _ _ (add_by_ip-Keeps _ _ _) (λ _.
          >>=-Holds keeps _ _ (SameLoops-Keeps _ (calls-SameLoops _)) (λ _.
            >>=-Holds keeps _ _ (value_of-Holds keeps _) (λ old.
              >>=-Holds keeps _ _ (add_by_ip-Keeps _ _ _) (λ _.
                >>=-Holds keeps _ _ (value_of-Holds keeps _) (λ new.
                  >>=-Holds keeps _ _ (move_node-Keeps now _ old new)
                    (λ _. SameLoops-Keeps _ status-SameLoops))))))))))
