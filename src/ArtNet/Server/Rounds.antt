-- ===== src/ArtNet/Server/Rounds.antt =====
-- The rounds of `start_artdmx_loop` keep the coroutines in order
-- (custom_components/dmx/server/artnet_server.py).
use ha_artnet_led.Base.{
  ℕ, ◌+◌, ◌≡◌, refl, sym, ap, ◌∙◌, Bool, true, false, Option, some, none, arith, Bool-cases,
  some-injective, inl, inr, if◌then◌else◌, ltb, ◌==◌, ==_iff,
}
use ha_artnet_led.Base.Result.{Result-cases}
use ha_artnet_led.Base.Action.{
  Done, Holds, >>=-Holds, returns-Holds, current-Holds, value_of-Holds, if-Holds, change, returns,
}
use ha_artnet_led.Base.Bytes.{Bytes}
use ha_artnet_led.Base.Dict.{nat_eq, lookup, erase, lookup-insert, insert-Unique}
use ha_artnet_led.ArtNet.Server.{ArtNetServer, DmxLoop, ManualNode, Event, port_address_eq}
use ha_artnet_led.ArtNet.Server.Sending.{
  next_sequence, set_packet, send_round, end_round, loop_round, loop_from, step_from, loop_step,
  ended, manual_round, start_task, send_dmx,
}
use ha_artnet_led.ArtNet.Server.Loops.{
  IsOwned, IsNumbered, SameLoops, same_loops, task_at, Keeps, keeps, KeepsOwner, keeps_owner,
  SameLoops-KeepsOwner, modify_port-SameLoops, calls-SameLoops, show_transmitted-SameLoops,
}
use ha_artnet_led.ArtNet.Server.Ownership.{erase-IsOwned, no_nodes-Keeps, replace_loop-Keeps}
use ha_artnet_led.ArtNet.Address.{PortAddress}

send_manual-SameLoops :
    (packet : Bytes) (m : Option ManualNode) → Holds SameLoops (manual_round packet m)
send_manual-SameLoops packet none = value_of-Holds same_loops _
send_manual-SameLoops packet (some m) = calls-SameLoops _

send_round-SameLoops : (l : DmxLoop) (packet : Bytes) → Holds SameLoops (send_round l packet)
unfolding send_round
send_round-SameLoops l packet = >>=-Holds same_loops _ _ (current-Holds same_loops) (λ s.
    >>=-Holds same_loops _ _
      (if-Holds same_loops _ _ _ (show_transmitted-SameLoops false l.own_port) (calls-SameLoops _))
      (λ _. >>=-Holds same_loops _ _ (current-Holds same_loops) (λ t.
        if-Holds same_loops _ _ _
          (send_manual-SameLoops packet (lookup l.address t.manual_nodes_by_port_address))
          (returns-Holds same_loops tt))))

-- The number of the next round.
next_sequence-IsNumbered :
    (s : ArtNetServer)
    → IsNumbered s.sequencing s.sequence_number
    → IsNumbered s.sequencing (next_sequence s)
unfolding next_sequence
next_sequence-IsNumbered s h = number s.sequencing s.sequence_number h
  where
    number :
        (b : Bool) (n : ℕ)
        → IsNumbered b n
        → IsNumbered b (if b then (if ltb 0xFF (n + 1) then 0x01 else n + 1) else n)
    number true n (low, high) = ground arith
    number false n h = h

sequence-KeepsOwner :
    (id r : ℕ)
    → Holds (KeepsOwner id r) (change (λ s. record s { sequence_number = next_sequence s }))
unfolding change
sequence-KeepsOwner id r = record {
  at = λ s (w, owner). (
    record { owned = w.owned; unique = w.unique; numbered = next_sequence-IsNumbered s w.numbered },
    owner,
  );
}

set_packet-KeepsOwner :
    (id : ℕ) (packet : Bytes) (l : DmxLoop)
    → Holds (KeepsOwner id l.own_port) (change (set_packet id packet l))
unfolding change
set_packet-KeepsOwner id packet l = record {
  at = λ s (w, (low, task)). (
    record {
      owned = λ j m e. elim (Bool-cases (j == id)) [
        | inl y ↦
            let is_l : some (record l { packet = some packet }) ≡ some m =
              sym (lookup-insert id j (record l { packet = some packet }) s.loops ∙ rw y) ∙ e in
            let j_is_id = (==_iff j id).0 y in
            let port : l.own_port ≡ m.own_port =
              ap (λ (x : DmxLoop). x.own_port) (some-injective is_l) in
            (rw j_is_id low, ap (λ (q : ℕ). task_at q s) (sym port) ∙ task ∙ ap some (sym j_is_id))
        | inr n ↦
            w.owned j m
              (sym (lookup-insert id j (record l { packet = some packet }) s.loops ∙ rw n) ∙ e)
      ];
      unique = insert-Unique id (record l { packet = some packet }) s.loops w.unique;
      numbered = w.numbered;
    },
    (low, task),
  );
}

erase-KeepsOwner :
    (id r : ℕ)
    → Holds (KeepsOwner id r) (change (λ (t : ArtNetServer). record t { loops = erase id t.loops }))
unfolding change
erase-KeepsOwner id r = record { at = λ s (w, owner). (erase-IsOwned id s w, owner) }

end-KeepsOwner :
    (id : ℕ) (l : DmxLoop) (packet : Bytes) (stop : Bool)
    → Holds (KeepsOwner id l.own_port) (
        change
          (if stop then (λ t. record t { loops = erase id t.loops }) else set_packet id packet l))
end-KeepsOwner id l packet true = erase-KeepsOwner id l.own_port
end-KeepsOwner id l packet false = set_packet-KeepsOwner id packet l

loop_round-KeepsOwner :
    (id : ℕ) (l : DmxLoop) (packet : Bytes)
    → Holds (KeepsOwner id l.own_port) (loop_round id l packet)
unfolding loop_round end_round
loop_round-KeepsOwner id l packet =
    let j = keeps_owner id l.own_port in
    >>=-Holds j _ _ (SameLoops-KeepsOwner id l.own_port _ (send_round-SameLoops l packet)) (λ _.
      >>=-Holds j _ _ (sequence-KeepsOwner id l.own_port) (λ _.
        >>=-Holds j _ _ (current-Holds j)
          (λ s. >>=-Holds j _ _ (value_of-Holds j _) (λ next. end-KeepsOwner id l next _))))

loop_from-KeepsOwner :
    (id : ℕ) (l : DmxLoop) (packet : Option Bytes)
    → Holds (KeepsOwner id l.own_port) (loop_from id l packet)
unfolding loop_from
loop_from-KeepsOwner id l (some packet) = loop_round-KeepsOwner id l packet
loop_from-KeepsOwner id l none =
    let j = keeps_owner id l.own_port in
    >>=-Holds j _ _
      (SameLoops-KeepsOwner id l.own_port _ (modify_port-SameLoops l.own_port _ (λ o. refl)))
      (λ _.
        >>=-Holds j _ _ (current-Holds j)
          (λ s. >>=-Holds j _ _ (value_of-Holds j _) (λ packet. loop_round-KeepsOwner id l packet)))

ended-IsOwned :
    (id : ℕ) (d : Done ArtNetServer Event (Unit {0})) → IsOwned d.after → IsOwned (ended id d).after
ended-IsOwned id d w = elim (Result-cases d.result) [
  | inl (u, e) ↦ rw e w
  | inr (x, e) ↦ rw e (erase-IsOwned id d.after w)
]

step_from-IsOwned :
    (id : ℕ) (l : Option DmxLoop) (s : ArtNetServer)
    → lookup id s.loops ≡ l
    → IsOwned s
    → IsOwned (step_from id l s).after
unfolding returns
step_from-IsOwned id none s e w = w
step_from-IsOwned id (some l) s e w =
    ended-IsOwned id (loop_from id l l.packet s)
      ((loop_from-KeepsOwner id l l.packet).at s (w, w.owned id l e)).0

-- A step of a coroutine, whether it sleeps again, ends or raises.
pub loop_step-Keeps : (id : ℕ) → Holds Keeps (loop_step id)
unfolding loop_step
loop_step-Keeps id = record { at = λ s w. step_from-IsOwned id (lookup id s.loops) s refl w }

start_task-Keeps : (task : Option ℕ) → Holds Keeps (start_task task)
unfolding start_task
start_task-Keeps none = returns-Holds keeps none
start_task-Keeps (some id) =
    >>=-Holds keeps _ _ (loop_step-Keeps id) (λ _. returns-Holds keeps (some id))

pub send_dmx-Keeps :
    (now : ℕ) (address : PortAddress) (payload : Bytes) → Holds Keeps (send_dmx now address payload)
unfolding send_dmx
send_dmx-Keeps now address payload = >>=-Holds keeps _ _ (current-Holds keeps) (λ s.
    if-Holds keeps _ _ _ (no_nodes-Keeps now address)
      (>>=-Holds keeps _ _ (replace_loop-Keeps address payload _) start_task-Keeps))
