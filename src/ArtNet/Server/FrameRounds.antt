-- ===== src/ArtNet/Server/FrameRounds.antt =====
-- What `send_dmx`, with the first round of its coroutine, leaves alone: the node tables
-- (custom_components/dmx/server/artnet_server.py).
use ha_artnet_led.Base.{
  ℕ, refl, Bool, true, false, List, [], ◌∷◌, Option, some, none, map, inl, inr, if◌then◌else◌,
}
use ha_artnet_led.Base.Result.{Result-cases}
use ha_artnet_led.Base.Action.{
  Done, Holds, >>=-Holds, returns-Holds, current-Holds, value_of-Holds, if-Holds, change, returns,
}
use ha_artnet_led.Base.Bytes.{Bytes}
use ha_artnet_led.Base.Dict.{nat_eq, lookup, erase}
use ha_artnet_led.ArtNet.Address.{PortAddress}
use ha_artnet_led.ArtNet.Server.{
  ArtNetServer, DmxLoop, ManualNode, NodeKey, Event, send_to, port_address_eq,
}
use ha_artnet_led.ArtNet.Server.Sending.{
  set_packet, send_round, end_round, loop_round, loop_from, step_from, loop_step, ended,
  manual_round, start_task, send_dmx, nodes_of,
}
use ha_artnet_led.ArtNet.Server.Frame.{
  NoLost, SameNodes, same_nodes, show_transmitted-SameNodes, no_nodes-SameNodes,
  replace_loop-SameNodes, modify_port-SameNodes, change-SameNodes, calls-SameNodes,
}

manual_round-SameNodes :
    (packet : Bytes) (m : Option ManualNode) → Holds SameNodes (manual_round packet m)
manual_round-SameNodes packet none = value_of-Holds same_nodes _
manual_round-SameNodes packet (some m) = calls-SameNodes _ tt

NoLost-sends : (packet : Bytes) (ks : List NodeKey) → NoLost (map (λ k. send_to k.0 packet) ks)
NoLost-sends packet [] = tt
NoLost-sends packet (k ∷ ks) = NoLost-sends packet ks

send_round-SameNodes : (l : DmxLoop) (packet : Bytes) → Holds SameNodes (send_round l packet)
unfolding send_round
send_round-SameNodes l packet = >>=-Holds same_nodes _ _ (current-Holds same_nodes) (λ s.
    >>=-Holds same_nodes _ _
      (if-Holds same_nodes _ _ _ (show_transmitted-SameNodes false l.own_port)
        (calls-SameNodes _ (NoLost-sends packet (nodes_of l.address s))))
      (λ _. >>=-Holds same_nodes _ _ (current-Holds same_nodes) (λ t.
        if-Holds same_nodes _ _ _
          (manual_round-SameNodes packet (lookup l.address t.manual_nodes_by_port_address))
          (returns-Holds same_nodes tt))))

end-SameNodes :
    (id : ℕ) (l : DmxLoop) (packet : Bytes) (stop : Bool)
    → Holds SameNodes (
        change
          (if stop then (λ t. record t { loops = erase id t.loops }) else set_packet id packet l))
end-SameNodes id l packet true = change-SameNodes _ (λ s. refl) (λ s. refl)
end-SameNodes id l packet false = change-SameNodes _ (λ s. refl) (λ s. refl)

loop_round-SameNodes :
    (id : ℕ) (l : DmxLoop) (packet : Bytes) → Holds SameNodes (loop_round id l packet)
unfolding loop_round end_round
loop_round-SameNodes id l packet = >>=-Holds same_nodes _ _ (send_round-SameNodes l packet) (λ _.
    >>=-Holds same_nodes _ _ (change-SameNodes _ (λ s. refl) (λ s. refl)) (λ _.
      >>=-Holds same_nodes _ _ (current-Holds same_nodes) (λ s.
        >>=-Holds same_nodes _ _ (value_of-Holds same_nodes _)
          (λ next. end-SameNodes id l next _))))

loop_from-SameNodes :
    (id : ℕ) (l : DmxLoop) (packet : Option Bytes) → Holds SameNodes (loop_from id l packet)
unfolding loop_from
loop_from-SameNodes id l (some packet) = loop_round-SameNodes id l packet
loop_from-SameNodes id l none = >>=-Holds same_nodes _ _ (modify_port-SameNodes l.own_port _) (λ _.
    >>=-Holds same_nodes _ _ (current-Holds same_nodes) (λ s.
      >>=-Holds same_nodes _ _ (value_of-Holds same_nodes _)
        (λ packet. loop_round-SameNodes id l packet)))

ended-SameNodes :
    (id : ℕ) (s : ArtNetServer) (d : Done ArtNetServer Event (Unit {0}))
    → SameNodes s d.after d.events
    → SameNodes s (ended id d).after (ended id d).events
ended-SameNodes id s d h = elim (Result-cases d.result) [
  | inl (u, e) ↦ rw e h
  | inr (x, e) ↦ rw e (record { by_ip = h.by_ip; by_port = h.by_port; no_lost = h.no_lost })
]

step_from-SameNodes :
    (id : ℕ) (l : Option DmxLoop) (s : ArtNetServer)
    → SameNodes s (step_from id l s).after (step_from id l s).events
unfolding returns
step_from-SameNodes id none s = (returns-Holds same_nodes tt).at s
step_from-SameNodes id (some l) s =
    ended-SameNodes id s (loop_from id l l.packet s) ((loop_from-SameNodes id l l.packet).at s)

loop_step-SameNodes : (id : ℕ) → Holds SameNodes (loop_step id)
unfolding loop_step
loop_step-SameNodes id = record { at = λ s. step_from-SameNodes id (lookup id s.loops) s }

start_task-SameNodes : (task : Option ℕ) → Holds SameNodes (start_task task)
unfolding start_task
start_task-SameNodes none = returns-Holds same_nodes none
start_task-SameNodes (some id) =
    >>=-Holds same_nodes _ _ (loop_step-SameNodes id) (λ _. returns-Holds same_nodes (some id))

pub send_dmx-SameNodes :
    (now : ℕ) (address : PortAddress) (payload : Bytes)
    → Holds SameNodes (send_dmx now address payload)
unfolding send_dmx
send_dmx-SameNodes now address payload = >>=-Holds same_nodes _ _ (current-Holds same_nodes) (λ s.
    if-Holds same_nodes _ _ _ (no_nodes-SameNodes now address)
      (>>=-Holds same_nodes _ _ (replace_loop-SameNodes address payload _) start_task-SameNodes))
