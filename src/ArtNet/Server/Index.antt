-- ===== src/ArtNet/Server/Index.antt =====
-- The table of nodes by port address as an index of the table of nodes by address: what adding and
-- removing one node does to it (custom_components/dmx/server/artnet_server.py).
use ha_artnet_led.Base.{
  ℕ, ◌≡◌, refl, sym, ap, ◌∙◌, subst, Bool, true, false, not, ◌&&◌, ◌||◌, List, [], ◌∷◌, Option,
  some, none, inl, inr, Bool-cases, if◌then◌else◌,
}
use ha_artnet_led.Base.Result.{ok}
use ha_artnet_led.Base.Action.{
  Done, Holds, >>=-Holds, returns-Holds, current-Holds, if-Holds, ◌>>=◌, current, change, returns,
  nothing,
}
use ha_artnet_led.Base.Dict.{
  lookup, lookup-insert, lookup-erase, insert-Unique, erase-Unique, Unique,
}
use ha_artnet_led.Base.Sets.{member, add, discard, member-add, member-discard}
use ha_artnet_led.ArtNet.Address.{PortAddress, address_eq}
use ha_artnet_led.ArtNet.Server.{
  ArtNetServer, NodeKey, Event, port_address_eq, key_eq, key_beq, key_beq_iff, address_eq_iff,
}
use ha_artnet_led.ArtNet.Server.Sending.{or_empty, nodes_of, is_empty, send_dmx}
use ha_artnet_led.ArtNet.Server.Nodes.{
  add_node_by_port_address, remove_node_by_port_address, set_nodes, send_current, without,
  remove_from, lose_node, has_value, own_frame,
}
use ha_artnet_led.ArtNet.Server.Frame.{SameNodes, same_nodes, NoLost}
use ha_artnet_led.ArtNet.Server.FrameRounds.{send_dmx-SameNodes}

-- The node is in the set of the port address.
abbrev pub listens : PortAddress → NodeKey → ArtNetServer → Bool
listens a k s = member k (nodes_of a s)

abbrev pub at_both : PortAddress → NodeKey → PortAddress → NodeKey → Bool
at_both a key b l = address_eq b a && key_beq l key

-- What a call may do to the tables: it leaves the nodes, and puts `key` into the set of `a` alone, or
-- takes it out of it.
pub record Adds (a : PortAddress) (key : NodeKey) (s t : ArtNetServer) (es : List Event)
    : Type 0 where
  pub by_ip : t.nodes_by_ip ≡ s.nodes_by_ip
  pub into : (b : PortAddress) (l : NodeKey) → listens b l t ≡ (at_both a key b l || listens b l s)
  pub unique : Unique s.nodes_by_port_address → Unique t.nodes_by_port_address
  pub no_lost : NoLost es

pub record Removes (a : PortAddress) (key : NodeKey) (s t : ArtNetServer) (es : List Event)
    : Type 0 where
  pub by_ip : t.nodes_by_ip ≡ s.nodes_by_ip
  pub out :
      (b : PortAddress) (l : NodeKey) → listens b l t ≡ (listens b l s && not (at_both a key b l))
  pub unique : Unique t.nodes_by_port_address
  pub no_lost : NoLost es

set_nodes-listens :
    (a b : PortAddress) (l : NodeKey) (ks : List NodeKey) (s : ArtNetServer)
    → listens b l (set_nodes a ks s) ≡ (if address_eq b a then member l ks else listens b l s)
set_nodes-listens a b l ks s =
    ap (λ o. member l (or_empty o)) (lookup-insert a b ks s.nodes_by_port_address)
    ∙ elim (Bool-cases (address_eq b a)) [ inl y ↦ rw y | inr n ↦ rw n ]

pub and_true : (b c : Bool) → (b && c) ≡ true → (b ≡ true) × (c ≡ true)
and_true true c h = (refl, h)
and_true false c h = absurd (cc)

pub and_not-false : (b : Bool) → b ≡ (b && not false)
and_not-false true = refl
and_not-false false = refl

is_empty-member : (l : NodeKey) (ks : List NodeKey) → is_empty ks ≡ true → member l ks ≡ false
is_empty-member l [] h = refl
is_empty-member l (k ∷ ks) h = cc

send_current-SameNodes : (now : ℕ) (a : PortAddress) → Holds SameNodes (send_current now a)
unfolding send_current
send_current-SameNodes now a = >>=-Holds same_nodes _ _ (current-Holds same_nodes) (λ s.
    if-Holds same_nodes _ _ _
      (elim (own_frame a s)
        as (λ o.
          Holds SameNodes (elim o [
            | none ↦ nothing
            | some payload ↦ send_dmx now a payload >>= λ task. nothing
          ])) [
            | none ↦ returns-Holds same_nodes tt
            | some payload ↦
                >>=-Holds same_nodes _ _ (send_dmx-SameNodes now a payload)
                  (λ task. returns-Holds same_nodes tt)
          ])
      (returns-Holds same_nodes tt))

without-listens :
    (a b : PortAddress) (key l : NodeKey) (ks : List NodeKey) (s : ArtNetServer)
    → Unique s.nodes_by_port_address
    → listens b l (without a key ks s)
      ≡ (if address_eq b a then member l (discard key ks) else listens b l s)
without-listens a b key l ks s u = elim (Bool-cases (is_empty (discard key ks))) [
  | inl y ↦ rw y (
      ap (λ o. member l (or_empty o)) (lookup-erase a b s.nodes_by_port_address u)
      ∙ elim (Bool-cases (address_eq b a)) [
        | inl same ↦ rw same (sym (is_empty-member l (discard key ks) y))
        | inr n ↦ rw n
      ])
  | inr n ↦ rw n (set_nodes-listens a b l (discard key ks) s)
]

already-into :
    (a b : PortAddress) (key l : NodeKey) (s : ArtNetServer)
    → member key (nodes_of a s) ≡ true
    → listens b l s ≡ (at_both a key b l || listens b l s)
already-into a b key l s y = elim (Bool-cases (at_both a key b l)) [
  | inl both ↦
      let (same, e) = and_true (address_eq b a) (key_beq l key) both in
      rw (both, (address_eq_iff b a).0 same, (key_beq_iff l key).0 e) y
  | inr n ↦ rw n
]

add-into :
    (a b : PortAddress) (key l : NodeKey) (s : ArtNetServer)
    → (if address_eq b a then member l (add key (nodes_of a s)) else listens b l s)
      ≡ (at_both a key b l || listens b l s)
add-into a b key l s = elim (Bool-cases (address_eq b a)) [
  | inl y ↦ rw (y, (address_eq_iff b a).0 y) (member-add l key (nodes_of a s))
  | inr n ↦ rw n
]

discard-out :
    (a b : PortAddress) (key l : NodeKey) (ks : List NodeKey) (s : ArtNetServer)
    → nodes_of a s ≡ ks
    → (if address_eq b a then member l (discard key ks) else listens b l s)
      ≡ (listens b l s && not (at_both a key b l))
discard-out a b key l ks s same = elim (Bool-cases (address_eq b a)) [
  | inl y ↦ rw (y, (address_eq_iff b a).0 y, same) (member-discard l key ks)
  | inr n ↦ rw n (and_not-false (listens b l s))
]

-- `add_node_by_port_address` on any state.
pub add_node_by_port_address-Adds :
    (now : ℕ) (a : PortAddress) (key : NodeKey) (s : ArtNetServer)
    → Adds a key s
        (add_node_by_port_address now a key s).after
        (add_node_by_port_address now a key s).events
unfolding add_node_by_port_address ◌>>=◌ current
add_node_by_port_address-Adds now a key s = elim (Bool-cases (is_empty (nodes_of a s))) [
  | inl none_yet ↦ rw none_yet (
      unfold change in
      record {
        by_ip = refl;
        into = λ b l. set_nodes-listens a b l (key ∷ []) s ∙ elim (Bool-cases (address_eq b a)) [
          | inl y ↦
              let e = (address_eq_iff b a).0 y in
              rw (y, e, is_empty-member l (nodes_of a s) none_yet)
          | inr n ↦ rw n
        ];
        unique = insert-Unique a (key ∷ []) s.nodes_by_port_address;
        no_lost = tt;
      })
  | inr some_yet ↦ rw some_yet (elim (Bool-cases (member key (nodes_of a s))) [
    | inl y ↦ rw y (
        unfold returns in
        record {
          by_ip = refl;
          into = λ b l. already-into a b key l s y;
          unique = λ u. u;
          no_lost = tt;
        })
    | inr n ↦
        let s' = set_nodes a (add key (nodes_of a s)) s in
        let h = (send_current-SameNodes now a).at s' in
        rw n (
          unfold change in
          record {
            by_ip = h.by_ip;
            into = λ b l.
                ap (λ d. member l (or_empty (lookup b d))) h.by_port
                ∙ set_nodes-listens a b l (add key (nodes_of a s)) s
                ∙ add-into a b key l s;
            unique = λ u.
                subst Unique (sym h.by_port)
                  (insert-Unique a (add key (nodes_of a s)) s.nodes_by_port_address u);
            no_lost = h.no_lost;
          })
  ])
]

pub without-by_ip :
    (a : PortAddress) (key : NodeKey) (ks : List NodeKey) (s : ArtNetServer)
    → (without a key ks s).nodes_by_ip ≡ s.nodes_by_ip
without-by_ip a key ks s = elim (Bool-cases (is_empty (discard key ks))) [
  | inl y ↦ rw y
  | inr n ↦ rw n
]

without-Unique :
    (a : PortAddress) (key : NodeKey) (ks : List NodeKey) (s : ArtNetServer)
    → Unique s.nodes_by_port_address
    → Unique (without a key ks s).nodes_by_port_address
without-Unique a key ks s u = elim (Bool-cases (is_empty (discard key ks))) [
  | inl y ↦ rw y (erase-Unique a s.nodes_by_port_address u)
  | inr n ↦ rw n (insert-Unique a (discard key ks) s.nodes_by_port_address u)
]

lose_node-idle :
    (key : NodeKey) (s : ArtNetServer)
    → has_value key s.nodes_by_ip ≡ true
    → lose_node key s ≡ record { after = s; events = []; result = ok tt }
unfolding lose_node ◌>>=◌ current returns
lose_node-idle key s known = rw known

abbrev Removed : PortAddress → NodeKey → ArtNetServer → Done ArtNetServer Event (Unit {0}) → Type 0
Removed a key s d = Removes a key s d.after d.events × (d.result ≡ ok tt)

remove_from-Removes :
    (a : PortAddress) (key : NodeKey) (s : ArtNetServer) (o : Option (List NodeKey))
    → lookup a s.nodes_by_port_address ≡ o
    → Unique s.nodes_by_port_address
    → has_value key s.nodes_by_ip ≡ true
    → member key (or_empty o) ≡ true
    → Removed a key s (remove_from a key o s)
unfolding ◌>>=◌ change
remove_from-Removes a key s none e u known there = absurd (cc)
remove_from-Removes a key s (some []) e u known there = absurd (cc)
remove_from-Removes a key s (some (k ∷ ks)) e u known there =
    let same : or_empty (lookup a s.nodes_by_port_address) ≡ k ∷ ks = ap or_empty e in
    rw (lose_node-idle key (without a key (k ∷ ks) s) (rw (without-by_ip a key (k ∷ ks) s) known)) (
      record {
        by_ip = without-by_ip a key (k ∷ ks) s;
        out = λ b l. without-listens a b key l (k ∷ ks) s u ∙ discard-out a b key l (k ∷ ks) s same;
        unique = without-Unique a key (k ∷ ks) s u;
        no_lost = tt;
      },
      refl,
    )

-- `remove_node_by_port_address` of a node that is known and in the set.
pub remove_node_by_port_address-Removes :
    (a : PortAddress) (key : NodeKey) (s : ArtNetServer)
    → Unique s.nodes_by_port_address
    → has_value key s.nodes_by_ip ≡ true
    → listens a key s ≡ true
    → Removed a key s (remove_node_by_port_address a key s)
unfolding remove_node_by_port_address ◌>>=◌ current
remove_node_by_port_address-Removes a key s u known there =
    remove_from-Removes a key s (lookup a s.nodes_by_port_address) refl u known there
