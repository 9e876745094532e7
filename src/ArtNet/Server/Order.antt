-- ===== src/ArtNet/Server/Order.antt =====
-- Whatever the server does, its coroutines stay in order
-- (custom_components/dmx/server/artnet_server.py).
use ha_artnet_led.Base.{
  ◌≢◌, ==_iff, ◌⊎◌, ℕ, zero, suc, ◌≡◌, refl, sym, ap, ◌∙◌, Bool, true, false, List, [], ◌∷◌, ◌++◌,
  Option, some, none, arith, Bool-cases, some-injective, inl, inr, if◌then◌else◌, ◌==◌, get_elem?,
}
use ha_artnet_led.Base.Result.{Result}
use ha_artnet_led.Base.Action.{
  Holds, >>=-Holds, returns-Holds, current-Holds, value_of-Holds, if-Holds, ◌>>=◌, change, value_of,
}
use ha_artnet_led.Base.Bytes.{Bytes}
use ha_artnet_led.Base.Dict.{nat_eq, lookup, insert}
use ha_artnet_led.Base.Text.{Text}
use ha_artnet_led.ArtNet.Address.{PortAddress}
use ha_artnet_led.ArtNet.Dmx.{op_output_dmx}
use ha_artnet_led.ArtNet.Poll.{op_poll}
use ha_artnet_led.ArtNet.Messages.{op_diag_data, op_time_code, op_command, op_trigger}
use ha_artnet_led.ArtNet.IpProg.{op_ip_prog_reply}
use ha_artnet_led.ArtNet.Server.{
  ArtNetServer, OwnPort, ManualNode, DmxLoop, port_address_eq, key_eq, add_manual_node,
}
use ha_artnet_led.ArtNet.Server.Replies.{Method, add_port, remove_port}
use ha_artnet_led.ArtNet.Server.Dispatch.{
  op_poll_reply, dispatch, dispatch_to, handle_datagram, log_packet,
}
use ha_artnet_led.ArtNet.Server.Loops.{
  IsOwned, IsNumbered, SameLoops, same_loops, Keeps, keeps, task_at, task_of, SameLoops-Keeps,
  status-SameLoops, update_subscribers-SameLoops,
}
use ha_artnet_led.ArtNet.Server.Rounds.{loop_step-Keeps, send_dmx-Keeps}
use ha_artnet_led.ArtNet.Server.Steps.{
  make_server, Operation, connect, disconnect, send, resume, datagram, clean, disable_input,
  open_port, close_port, add_manual, perform, Serves, begin, then_perform, connection_made,
  connection_lost,
}
use ha_artnet_led.ArtNet.Server.Registering.{change-SameLoops, handle_poll_reply-Keeps}
use ha_artnet_led.ArtNet.Server.Handlers.{
  remove_stale_nodes-Keeps, handle_poll-SameLoops, handle_dmx-SameLoops,
  disable_input_flag-SameLoops, handle_command-SameLoops, handle_trigger-SameLoops,
}

log_packet-Keeps : {S : Type 0} (packet : Result S) → Holds Keeps (log_packet packet)
log_packet-Keeps packet = >>=-Holds keeps _ _ (value_of-Holds keeps _) (λ p. returns-Holds keeps tt)

handled :
    {A : Type 0} (packet : Result A) (handler : A → Method (Unit {0}))
    → ((a : A) → Holds Keeps (handler a))
    → Holds Keeps (value_of packet >>= handler)
handled packet handler h = >>=-Holds keeps _ _ (value_of-Holds keeps packet) h

dispatch-Keeps :
    (decode_replacing : Bytes → Text) (now : ℕ) (addr packet : Bytes) (code : ℕ)
    → Holds Keeps (dispatch decode_replacing now addr packet code)
unfolding dispatch
dispatch-Keeps decode_replacing now addr packet code =
    if-Holds keeps (code == op_poll) _ _
      (handled _ _ (λ poll. SameLoops-Keeps _ (handle_poll-SameLoops addr poll)))
      (if-Holds keeps (code == op_poll_reply) _ _
        (handled _ _ (λ reply. handle_poll_reply-Keeps now addr reply))
        (if-Holds keeps (code == op_ip_prog_reply) _ _ (log_packet-Keeps _) (
          if-Holds keeps (code == op_diag_data) _ _ (log_packet-Keeps _) (
            if-Holds keeps (code == op_time_code) _ _ (log_packet-Keeps _) (
              if-Holds keeps (code == op_command) _ _
                (handled _ _ (λ c. SameLoops-Keeps _ (handle_command-SameLoops c)))
                (if-Holds keeps (code == op_trigger) _ _
                  (handled _ _
                    (λ t. SameLoops-Keeps _ (handle_trigger-SameLoops decode_replacing t)))
                  (if-Holds keeps (code == op_output_dmx) _ _
                    (handled _ _ (λ dmx. SameLoops-Keeps _ (handle_dmx-SameLoops now dmx addr)))
                    (returns-Holds keeps tt))))))))

handle_datagram-Keeps :
    (decode_replacing : Bytes → Text) (now : ℕ) (addr packet : Bytes)
    → Holds Keeps (handle_datagram decode_replacing now addr packet)
unfolding handle_datagram
handle_datagram-Keeps decode_replacing now addr packet = handled _ _ selected
  where
    selected : (code : Option ℕ) → Holds Keeps (dispatch_to decode_replacing now addr packet code)
    selected none = returns-Holds keeps tt
    selected (some code) = dispatch-Keeps decode_replacing now addr packet code

-- A new own port at the end of the store leaves the others where they are.
task-append :
    (store : List OwnPort) (o : OwnPort) (r id : ℕ)
    → task_of (get_elem? store r) ≡ some id
    → task_of (get_elem? (store ++ (o ∷ [])) r) ≡ some id
task-append [] o r id e = absurd (cc)
task-append (x ∷ xs) o zero id e = e
task-append (x ∷ xs) o (suc r) id e = task-append xs o r id e

add_port-Keeps : (now : ℕ) (address : PortAddress) → Holds Keeps (add_port now address)
unfolding add_port change
add_port-Keeps now address =
    >>=-Holds keeps _ _
      (record {
        at = λ s w. record {
          owned = λ id l e.
              let (low, task) = w.owned id l e in (low, task-append s.store _ l.own_port id task);
          unique = w.unique;
          numbered = w.numbered;
        };
      })
      (λ _.
        >>=-Holds keeps _ _ (SameLoops-Keeps _ status-SameLoops)
          (λ _. SameLoops-Keeps _ update_subscribers-SameLoops))

remove_port-SameLoops : (address : PortAddress) → Holds SameLoops (remove_port address)
unfolding remove_port
remove_port-SameLoops address = >>=-Holds same_loops _ _ (current-Holds same_loops) (λ s.
    >>=-Holds same_loops _ _ (value_of-Holds same_loops _) (λ _.
      >>=-Holds same_loops _ _
        (change-SameLoops _ (λ t. refl) (λ t. refl) (λ t. refl) (λ t. refl) (λ t. refl))
        (λ _. >>=-Holds same_loops _ _ status-SameLoops (λ _. update_subscribers-SameLoops))))

add_manual_node-SameLoops :
    (address : PortAddress) (node : ManualNode)
    → Holds SameLoops (change (add_manual_node address node))
unfolding add_manual_node change
add_manual_node-SameLoops address node =
    let add : ArtNetServer → ArtNetServer = λ s. record s {
      manual_nodes_by_port_address = insert address node s.manual_nodes_by_port_address;
    } in
    let added = change-SameLoops add (λ t. refl) (λ t. refl) (λ t. refl) (λ t. refl) (λ t. refl) in
    record {
      at = λ s. same_loops.join s (add s) _ [] [] (added.at s) (status-SameLoops.at (add s));
    }

perform-Keeps :
    (decode_replacing : Bytes → Text) (o : Operation) → Holds Keeps (perform decode_replacing o)
unfolding perform connection_made connection_lost
perform-Keeps decode_replacing (connect now) =
    SameLoops-Keeps _
      (change-SameLoops _ (λ t. refl) (λ t. refl) (λ t. refl) (λ t. refl) (λ t. refl))
perform-Keeps decode_replacing disconnect =
    SameLoops-Keeps _
      (change-SameLoops _ (λ t. refl) (λ t. refl) (λ t. refl) (λ t. refl) (λ t. refl))
perform-Keeps decode_replacing (send now address payload) =
    >>=-Holds keeps _ _ (send_dmx-Keeps now address payload) (λ task. returns-Holds keeps tt)
perform-Keeps decode_replacing (resume id) = loop_step-Keeps id
perform-Keeps decode_replacing (datagram now addr packet) =
    handle_datagram-Keeps decode_replacing now addr packet
perform-Keeps decode_replacing (clean now) = remove_stale_nodes-Keeps now
perform-Keeps decode_replacing (disable_input now r) =
    SameLoops-Keeps _ (disable_input_flag-SameLoops now r)
perform-Keeps decode_replacing (open_port now address) = add_port-Keeps now address
perform-Keeps decode_replacing (close_port address) =
    SameLoops-Keeps _ (remove_port-SameLoops address)
perform-Keeps decode_replacing (add_manual address node) =
    SameLoops-Keeps _ (add_manual_node-SameLoops address node)

Serves-IsOwned :
    (decode_replacing : Bytes → Text) (s t : ArtNetServer)
    → IsOwned s
    → Serves decode_replacing s t
    → IsOwned t
Serves-IsOwned decode_replacing s _ w begin = w
Serves-IsOwned decode_replacing s _ w (then_perform {t} o run) =
    (perform-Keeps decode_replacing o).at t (Serves-IsOwned decode_replacing s t w run)

first_number : (sequencing : Bool) → IsNumbered sequencing (if sequencing then 1 else 0)
first_number true = ground arith
first_number false = refl

module _ (own_ip mac : Bytes) (state_callback new_callback update_callback lost_callback : Bool)
    (firmware_version oem : ℕ) (short_name long_name : Text) (dhcp_configured sequencing : Bool)
    (retransmit_time_ms : ℕ) (decode_replacing : Bytes → Text) (t : ArtNetServer) where
  made-IsOwned :
      Serves decode_replacing
        (make_server own_ip mac state_callback new_callback update_callback lost_callback
          firmware_version oem short_name long_name dhcp_configured sequencing retransmit_time_ms)
        t
      → IsOwned t
  unfolding make_server
  made-IsOwned run =
      Serves-IsOwned decode_replacing _ t
        (record { owned = λ id l e. absurd (cc); unique = tt; numbered = first_number sequencing })
        run

  same_or_other :
      (id j : ℕ) (l m : DmxLoop)
      → task_at l.own_port t ≡ some id
      → task_at m.own_port t ≡ some j
      → (id ≡ j) ⊎ (l.own_port ≢ m.own_port)
  same_or_other id j l m task task' = elim (Bool-cases (id == j)) [
    | inl y ↦ inl ((==_iff id j).0 y)
    | inr n ↦ inr (λ same.
        let no : id ≡ j = some-injective (sym task ∙ ap (λ (q : ℕ). task_at q t) same ∙ task') in
        ground arith)
  ]

  -- Whatever happens to a server after it is made (connections, calls of send_dmx, datagrams, cleaning,
  -- new and removed ports, manual nodes, and steps of its coroutines, in any order and also where
  -- one of them raises), two coroutines of start_artdmx_loop that have not ended have different own
  -- ports, each is the task that its own port names, and the sequence number is from 1 to 255 where
  -- sequencing is on, and 0 where it is off.
  pub one_coroutine_for_each_port :
      (id j : ℕ) (l m : DmxLoop)
      → Serves decode_replacing
          (make_server own_ip mac state_callback new_callback update_callback lost_callback
            firmware_version oem short_name long_name dhcp_configured sequencing retransmit_time_ms)
          t
      → lookup id t.loops ≡ some l
      → lookup j t.loops ≡ some m
      → ((id ≡ j) ⊎ (l.own_port ≢ m.own_port))
        × (task_at l.own_port t ≡ some id)
        × IsNumbered t.sequencing t.sequence_number
  one_coroutine_for_each_port id j l m run e f =
      let w = made-IsOwned run in
      let (low, task) = w.owned id l e in
      let (low', task') = w.owned j m f in (same_or_other id j l m task task', task, w.numbered)
