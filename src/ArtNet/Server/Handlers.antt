-- ===== src/ArtNet/Server/Handlers.antt =====
-- The cleaning of the node tables and the handlers of the datagrams leave the coroutines in order
-- (custom_components/dmx/server/artnet_server.py).
use ha_artnet_led.Base.{
  ℕ, ◌+◌, refl, Bool, true, false, List, [], ◌∷◌, Option, some, none, arith, if◌then◌else◌, ltb,
  get_elem?,
}
use ha_artnet_led.Base.Action.{
  Holds, >>=-Holds, returns-Holds, current-Holds, value_of-Holds, if-Holds, only_if-Holds,
  each-Holds, ◌>>◌, change, nothing, only_if,
}
use ha_artnet_led.Base.Bytes.{Bytes}
use ha_artnet_led.Base.Dict.{Dict}
use ha_artnet_led.Base.Text.{Text}
use ha_artnet_led.ArtNet.Dmx.{ArtDmx}
use ha_artnet_led.ArtNet.Poll.{ArtPoll, DiagnosticsPriority}
use ha_artnet_led.ArtNet.Messages.{ArtCommand, ArtTrigger}
use ha_artnet_led.ArtNet.Server.{
  ArtNetServer, OwnPort, NodeKey, Node, key_of, port_address_eq, key_eq, bytes_beq,
  update_status_message,
}
use ha_artnet_led.ArtNet.Server.Replies.{update_subscribers}
use ha_artnet_led.ArtNet.Server.Sending.{modify_port, is_empty}
use ha_artnet_led.ArtNet.Server.Nodes.{
  remove_addresses, drop_stale, remove_stale_nodes, is_fresh, stale_keys,
}
use ha_artnet_led.ArtNet.Server.Receiving.{
  send_diagnostics, handle_poll, accept_dmx, handle_dmx, disable_input_flag, handle_command,
  apply_command, apply_pair, lstrip, rstrip, handle_trigger, set_received,
}
use ha_artnet_led.ArtNet.Server.Loops.{
  SameLoops, same_loops, Keeps, keeps, SameLoops-Keeps, calls-SameLoops, modify_port-SameLoops,
  status-SameLoops, update_subscribers-SameLoops,
}
use ha_artnet_led.ArtNet.Server.Registering.{change-SameLoops, remove_all-Keeps}

drop_stale-Keeps : (now : ℕ) (d : Dict NodeKey Node) → Holds Keeps (drop_stale now d)
unfolding drop_stale remove_addresses
drop_stale-Keeps now [] = returns-Holds keeps tt
drop_stale-Keeps now ((k, n) ∷ d) = if-Holds keeps (is_fresh now n) _ _ (drop_stale-Keeps now d) (
    >>=-Holds keeps _ _
      (>>=-Holds keeps _ _ (value_of-Holds keeps _)
        (λ addresses. remove_all-Keeps (key_of n) addresses))
      (λ _. drop_stale-Keeps now d))

pub remove_stale_nodes-Keeps : (now : ℕ) → Holds Keeps (remove_stale_nodes now)
unfolding remove_stale_nodes
remove_stale_nodes-Keeps now = >>=-Holds keeps _ _ (current-Holds keeps) (λ s.
    >>=-Holds keeps _ _ (drop_stale-Keeps now s.nodes_by_ip) (λ _.
      >>=-Holds keeps _ _
        (SameLoops-Keeps _
          (change-SameLoops _ (λ t. refl) (λ t. refl) (λ t. refl) (λ t. refl) (λ t. refl)))
        (λ _. SameLoops-Keeps _ (cleaned (is_empty (stale_keys now s.nodes_by_ip))))))
  where
    cleaned : (b : Bool) → Holds SameLoops (change (λ t. if b then t else update_status_message t))
    cleaned true = change-SameLoops _ (λ t. refl) (λ t. refl) (λ t. refl) (λ t. refl) (λ t. refl)
    cleaned false = status-SameLoops

send_diagnostics-SameLoops :
    (addr : Bytes) (priority : DiagnosticsPriority)
    → Holds SameLoops (send_diagnostics addr priority)
unfolding send_diagnostics
send_diagnostics-SameLoops addr priority = >>=-Holds same_loops _ _ (current-Holds same_loops) (λ s.
    >>=-Holds same_loops _ _ (value_of-Holds same_loops _) (λ diag_data.
      >>=-Holds same_loops _ _ (value_of-Holds same_loops _) (λ packet. calls-SameLoops _)))

pub handle_poll-SameLoops :
    (addr : Bytes) (poll : ArtPoll) → Holds SameLoops (handle_poll addr poll)
unfolding handle_poll
handle_poll-SameLoops addr poll = >>=-Holds same_loops _ _ (current-Holds same_loops) (λ s.
    if-Holds same_loops _ _ _ (returns-Holds same_loops tt) (
      >>=-Holds same_loops _ _
        (only_if-Holds same_loops _ _
          (change-SameLoops _ (λ t. refl) (λ t. refl) (λ t. refl) (λ t. refl) (λ t. refl)))
        (λ _. >>=-Holds same_loops _ _ (calls-SameLoops _) (λ _.
          only_if-Holds same_loops _ _ (send_diagnostics-SameLoops addr poll.diag_priority)))))

set_received-SameLoops :
    (r : ℕ) (b : Bool) → Holds SameLoops (change (modify_port r (set_received b)))
set_received-SameLoops r b = modify_port-SameLoops r (set_received b) (λ o. refl)

accept_dmx-SameLoops :
    (now : ℕ) (dmx : ArtDmx) (sender : Bytes) (r : ℕ) (o : OwnPort)
    → Holds SameLoops (accept_dmx now dmx sender r o)
unfolding accept_dmx
accept_dmx-SameLoops now dmx sender r o =
    >>=-Holds same_loops _ _
      (only_if-Holds same_loops _ _ (
        >>=-Holds same_loops _ _ (set_received-SameLoops r true)
          (λ _. update_subscribers-SameLoops)))
      (λ _. >>=-Holds same_loops _ _ (modify_port-SameLoops r _ (λ o. refl)) (λ _.
        >>=-Holds same_loops _ _ (calls-SameLoops _) (λ _.
          >>=-Holds same_loops _ _ (current-Holds same_loops)
            (λ s. only_if-Holds same_loops _ _ (calls-SameLoops _)))))

accept_for-SameLoops :
    (now : ℕ) (dmx : ArtDmx) (sender : Bytes) (s : ArtNetServer) (found : Option (ℕ × OwnPort))
    → Holds SameLoops (elim found [
      | none ↦ nothing
      | some (r, o) ↦ if bytes_beq sender s.own_ip then nothing else accept_dmx now dmx sender r o
    ])
accept_for-SameLoops now dmx sender s none = returns-Holds same_loops tt
accept_for-SameLoops now dmx sender s (some (r, o)) =
    if-Holds same_loops _ _ _ (returns-Holds same_loops tt)
      (accept_dmx-SameLoops now dmx sender r o)

pub handle_dmx-SameLoops :
    (now : ℕ) (dmx : ArtDmx) (sender : Bytes) → Holds SameLoops (handle_dmx now dmx sender)
unfolding handle_dmx
handle_dmx-SameLoops now dmx sender =
    >>=-Holds same_loops _ _ (current-Holds same_loops)
      (λ s. accept_for-SameLoops now dmx sender s _)

pub disable_input_flag-SameLoops : (now r : ℕ) → Holds SameLoops (disable_input_flag now r)
unfolding disable_input_flag
disable_input_flag-SameLoops now r =
    >>=-Holds same_loops _ _ (current-Holds same_loops) (λ s. silent (get_elem? s.store r))
  where
    silent :
        (found : Option OwnPort)
        → Holds SameLoops (elim found [
          | none ↦ nothing
          | some o ↦
              only_if
                (ltb (o.last_input_seen + 4000000) now)
                (change (modify_port r (set_received false)) >> update_subscribers)
        ])
    silent none = returns-Holds same_loops tt
    silent (some o) = only_if-Holds same_loops _ _ (
        >>=-Holds same_loops _ _ (set_received-SameLoops r false)
          (λ _. update_subscribers-SameLoops))

apply_pair-SameLoops : (parts : List Text) → Holds SameLoops (apply_pair parts)
apply_pair-SameLoops [] = value_of-Holds same_loops _
apply_pair-SameLoops (key ∷ []) = value_of-Holds same_loops _
apply_pair-SameLoops (key ∷ value ∷ []) =
    change-SameLoops _ (λ t. ground arith) (λ t. ground arith) (λ t. ground arith)
      (λ t. ground arith) (λ t. ground arith)
apply_pair-SameLoops (key ∷ value ∷ x ∷ xs) = value_of-Holds same_loops _

apply_command-SameLoops : (text : Text) → Holds SameLoops (apply_command text)
apply_command-SameLoops [] = returns-Holds same_loops tt
apply_command-SameLoops (x ∷ xs) = apply_pair-SameLoops _

pub handle_command-SameLoops : (c : ArtCommand) → Holds SameLoops (handle_command c)
unfolding handle_command
handle_command-SameLoops c =
    only_if-Holds same_loops _ _
      (each-Holds same_loops _ _ (λ text. apply_command-SameLoops (lstrip (rstrip text))))

pub handle_trigger-SameLoops :
    (decode_replacing : Bytes → Text) (t : ArtTrigger)
    → Holds SameLoops (handle_trigger decode_replacing t)
unfolding handle_trigger
handle_trigger-SameLoops decode_replacing t = calls-SameLoops _
