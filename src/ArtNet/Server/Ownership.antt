-- ===== src/ArtNet/Server/Ownership.antt =====
-- `send_dmx` and the rounds of its coroutines keep the coroutines in order
-- (custom_components/dmx/server/artnet_server.py).
use ha_artnet_led.Base.{
  ℕ, zero, suc, ◌+◌, ◌<◌, ◌≡◌, ◌≢◌, refl, sym, ap, ◌∙◌, subst, Bool, true, not, List, [], ◌∷◌,
  Option, some, none, arith, Bool-cases, some-injective, inl, inr, get_elem?, ltb, ◌==◌, ==_iff,
  length, get_elem?-set_self, get_elem?-set_ne,
}
use ha_artnet_led.Base.Result.{Result, ok, err, ok-injective}
use ha_artnet_led.Base.Action.{
  Holds, >>=-Holds_then, only_if-Holds, ◌>>=◌, ◌>>◌, change, calls, returns, current, value_of,
  only_if, >>=-after, >>=-raised,
}
use ha_artnet_led.Base.Bytes.{Bytes}
use ha_artnet_led.Base.Dict.{
  Dict, nat_eq, lookup, insert, erase, Unique, lookup-insert, lookup-erase, insert-Unique,
  erase-Unique,
}
use ha_artnet_led.ArtNet.Address.{PortAddress}
use ha_artnet_led.ArtNet.Server.{ArtNetServer, OwnPort, DmxLoop, Event, port_address_eq, uptime}
use ha_artnet_led.ArtNet.Server.Replies.{Method}
use ha_artnet_led.ArtNet.Server.Sending.{
  modify_port, cancel_task, show_transmitted, create_loop, object_at, own_port_from, own_port_at,
  replace_at, no_nodes, replace_loop,
}
use ha_artnet_led.ArtNet.Server.Loops.{
  IsOwned, task_of, task_at, Keeps, KeepsFree, keeps_free, Free, SameLoops-KeepsFree,
  show_transmitted-SameLoops,
}

found : {A : Type 0} (xs : List A) (r : ℕ) → r < length xs → (a : A) × (get_elem? xs r ≡ some a)
found [] r h = elim h [ ]
found (x ∷ xs) zero h = (x, refl)
found (x ∷ xs) (suc r) h = found xs r (omega arith)

pub still-there :
    (id j : ℕ) (l : DmxLoop) (d : Dict ℕ DmxLoop)
    → Unique d
    → lookup j (erase id d) ≡ some l
    → lookup j d ≡ some l
still-there id j l d u e = elim (Bool-cases (j == id)) [
  | inl y ↦ absurd (let gone : none ≡ some l = sym (lookup-erase id j d u ∙ rw y) ∙ e in cc)
  | inr n ↦ sym (lookup-erase id j d u ∙ rw n) ∙ e
]

-- Taking a coroutine out of the table.
pub erase-IsOwned :
    (id : ℕ) (s : ArtNetServer) → IsOwned s → IsOwned (record s { loops = erase id s.loops })
erase-IsOwned id s w = record {
  owned = λ j l e. w.owned j l (still-there id j l s.loops w.unique e);
  unique = erase-Unique id s.loops w.unique;
  numbered = w.numbered;
}

-- After the task of the own port has been cancelled, no coroutine has it.
cancel-free :
    (r id : ℕ) (s : ArtNetServer) (w : IsOwned s)
    → task_at r s ≡ some id
    → (j : ℕ) (l : DmxLoop) → lookup j (erase id s.loops) ≡ some l
    → l.own_port ≢ r
cancel-free r id s w task j l e same =
    let there = still-there id j l s.loops w.unique e in
    let j_is_id : j ≡ id =
      some-injective (sym (w.owned j l there).1 ∙ ap (λ (q : ℕ). task_at q s) same ∙ task) in
    let gone : lookup j (erase id s.loops) ≡ none =
      lookup-erase id j s.loops w.unique ∙ rw ((==_iff j id).1 j_is_id) in
    let no_more : none ≡ some l = sym gone ∙ e in cc

cancel_task-Free :
    (r : ℕ) (task : Option ℕ) (s : ArtNetServer)
    → IsOwned s
    → r < length s.store
    → task_at r s ≡ task
    → IsOwned (cancel_task task s).after × Free r (cancel_task task s).after
unfolding cancel_task ◌>>=◌ calls change returns
cancel_task-Free r none s w low task = (
  w,
  (
    low,
    λ j l e same.
        let no_task : some j ≡ none =
          sym (w.owned j l e).1 ∙ ap (λ (q : ℕ). task_at q s) same ∙ task in
        cc,
  ),
)
cancel_task-Free r (some id) s w low task = (erase-IsOwned id s w, (low, cancel-free r id s w task))

-- A coroutine is created for an own port that has none.
new-IsOwned :
    (r : ℕ) (l : DmxLoop) (s t : ArtNetServer)
    → l.own_port ≡ r
    → IsOwned s
    → Free r s
    → t.loops ≡ insert s.next_loop l s.loops
    → t.next_loop ≡ s.next_loop + 1
    → ((q : ℕ) → q ≢ r → task_at q t ≡ task_at q s)
    → task_at r t ≡ some s.next_loop
    → t.sequencing ≡ s.sequencing
    → t.sequence_number ≡ s.sequence_number
    → IsOwned t
new-IsOwned r l s t at_r w (low, free) loops next others mine sequencing number = record {
  owned = λ id m e. elim (Bool-cases (id == s.next_loop)) [
    | inl y ↦
        let is_new : some l ≡ some m =
          sym (ap (lookup id) loops ∙ lookup-insert s.next_loop id l s.loops ∙ rw y) ∙ e in
        let port : m.own_port ≡ r =
          ap (λ (x : DmxLoop). x.own_port) (sym (some-injective is_new)) ∙ at_r in
        (
          omega (arith, next, (==_iff id s.next_loop).0 y),
          ap (λ (q : ℕ). task_at q t) port ∙ mine ∙ ap some (sym ((==_iff id s.next_loop).0 y)),
        )
    | inr n ↦
        let old : lookup id s.loops ≡ some m =
          sym (ap (lookup id) loops ∙ lookup-insert s.next_loop id l s.loops ∙ rw n) ∙ e in
        let (before, task) = w.owned id m old in
        (omega (arith, next, before), others m.own_port (free id m old) ∙ task)
  ];
  unique =
      subst (λ (d : Dict ℕ DmxLoop). Unique d) (sym loops)
        (insert-Unique s.next_loop l s.loops w.unique);
  numbered = rw (sequencing, number) w.numbered;
}

create_loop-IsOwned :
    (address : PortAddress) (payload : Bytes) (r : ℕ) (manual : Bool) (s : ArtNetServer)
    → IsOwned s
    → Free r s
    → IsOwned (create_loop address payload r manual s).after
unfolding create_loop ◌>>=◌ calls change returns current modify_port
create_loop-IsOwned address payload r manual s w (low, free) =
    let (o, e) = found s.store r low in
    let l : DmxLoop = record {
      address = address;
      payload = payload;
      own_port = r;
      has_manual_node = manual;
      packet = none;
    } in
    rw e (
      new-IsOwned r l s _ refl w (low, free) refl refl
        (λ q ne. ap task_of (get_elem?-set_ne s.store r q _ (λ same. ne (sym same))))
        (ap task_of (get_elem?-set_self s.store r _ low)) refl refl)

-- The rest of `send_dmx`, after the cancellation.
abbrev Ends : ℕ → ArtNetServer → ArtNetServer → List Event → Type 0
Ends r s t es = IsOwned s × Free r s → IsOwned t

create-Ends :
    (address : PortAddress) (payload : Bytes) (r : ℕ) (manual : Bool)
    → Holds (Ends r) (create_loop address payload r manual >>= λ task. returns (some task))
unfolding create_loop ◌>>=◌ calls change returns current
create-Ends address payload r manual = record {
  at = λ s (w, free). create_loop-IsOwned address payload r manual s w free;
}

restart-Ends :
    (address : PortAddress) (payload : Bytes) (r : ℕ) (shown manual : Bool)
    → Holds (Ends r) (
        only_if shown (show_transmitted true r)
        >> (create_loop address payload r manual >>= λ task. returns (some task)))
restart-Ends address payload r shown manual =
    >>=-Holds_then {R = KeepsFree r} (λ s t es h w. (h w).0) (λ s t u es fs h k w. k (h w)) _ _
      (only_if-Holds (keeps_free r) shown _
        (SameLoops-KeepsFree r _ (show_transmitted-SameLoops true r)))
      (λ _. create-Ends address payload r manual)

cancel_task-returns : (task : Option ℕ) (s : ArtNetServer) → (cancel_task task s).result ≡ ok tt
unfolding cancel_task ◌>>=◌ calls change returns
cancel_task-returns none s = refl
cancel_task-returns (some id) s = refl

object_at-found :
    (q r : ℕ) (x : Option OwnPort) (o : OwnPort)
    → object_at q x ≡ ok (r, o)
    → (q ≡ r) × (x ≡ some o)
object_at-found q r none o e = absurd (cc)
object_at-found q r (some x) o e =
    let same : (let p : ℕ × OwnPort = (q, x) in p) ≡ (r, o) = ok-injective e in
    (ap (λ (p : ℕ × OwnPort). p.0) same, ap (λ (p : ℕ × OwnPort). some p.1) same)

own_port_from-found :
    (s : ArtNetServer) (q : Option ℕ) (r : ℕ) (o : OwnPort)
    → own_port_from s q ≡ ok (r, o)
    → get_elem? s.store r ≡ some o
own_port_from-found s none r o e = absurd (cc)
own_port_from-found s (some q) r o e =
    let (same, there) = object_at-found q r (get_elem? s.store q) o e in
    ap (get_elem? s.store) (sym same) ∙ there

low-of : {A : Type 0} (xs : List A) (r : ℕ) (a : A) → get_elem? xs r ≡ some a → r < length xs
low-of [] r a e = absurd (cc)
low-of (x ∷ xs) zero a e = omega arith
low-of (x ∷ xs) (suc r) a e = omega (arith, low-of xs r a e)

-- `send_dmx` where there is somebody to send to.
replace_from-Keeps :
    (address : PortAddress) (payload : Bytes) (manual : Bool) (s : ArtNetServer)
    (found_port : Result (ℕ × OwnPort))
    → own_port_at address s ≡ found_port
    → IsOwned s
    → IsOwned ((value_of found_port >>= replace_at address payload manual) s).after
unfolding value_of replace_at
replace_from-Keeps address payload manual s (err x) e w =
    rw (>>=-raised (value_of (err x)) (replace_at address payload manual) s x refl) w
replace_from-Keeps address payload manual s (ok (r, o)) e w =
    let there = own_port_from-found s (lookup address s.own_port_addresses) r o e in
    let shown : Bool = not o.port.good_output_a.data_being_transmitted in
    let rest : Method (Option ℕ) =
      only_if shown (show_transmitted true r)
      >> (create_loop address payload r manual >>= λ task. returns (some task)) in
    rw
      (
        >>=-after (value_of (ok (r, o))) (replace_at address payload manual) s (r, o) refl,
        >>=-after (cancel_task o.update_task) (λ _. rest) s tt
            (cancel_task-returns o.update_task s),
      )
      ((restart-Ends address payload r shown manual).at (cancel_task o.update_task s).after
        (cancel_task-Free r o.update_task s w (low-of s.store r o there) (ap task_of there)))

pub replace_loop-Keeps :
    (address : PortAddress) (payload : Bytes) (manual : Bool)
    → Holds Keeps (replace_loop address payload manual)
unfolding replace_loop current
replace_loop-Keeps address payload manual = record {
  at = λ s w.
      rw
        (>>=-after current
          (λ (t : ArtNetServer).
            value_of (own_port_at address t) >>= replace_at address payload manual)
          s s refl)
        (replace_from-Keeps address payload manual s (own_port_at address s) refl w);
}

pub no_nodes-Keeps : (now : ℕ) (address : PortAddress) → Holds Keeps (no_nodes now address)
unfolding no_nodes current change returns ◌>>=◌
no_nodes-Keeps now address = record {
  at = λ s w. elim (Bool-cases (ltb (uptime now s) 3)) [
    | inl y ↦ rw y w
    | inr n ↦ rw n (record { owned = w.owned; unique = w.unique; numbered = w.numbered })
  ];
}
