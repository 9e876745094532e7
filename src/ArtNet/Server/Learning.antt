-- ===== src/ArtNet/Server/Learning.antt =====
-- What a poll reply does to the node tables of custom_components/dmx/server/artnet_server.py.
use ha_artnet_led.Base.{
  ℕ, ◌≡◌, refl, sym, ap, ◌∙◌, subst, Bool, true, false, not, ◌&&◌, ◌||◌, List, [], Option, some,
  length, ◌==◌, none, arith, Bool-cases, some-injective, inl, inr, if◌then◌else◌,
}
use ha_artnet_led.Base.Result.{ok, err, Exc}
use ha_artnet_led.Base.Action.{◌>>=◌, change, calls, current, returns, value_of}
use ha_artnet_led.Base.Bytes.{Bytes}
use ha_artnet_led.Base.Dict.{Dict, Unique, lookup, insert, lookup-insert, insert-Unique}
use ha_artnet_led.Base.Sets.{member}
use ha_artnet_led.ArtNet.Address.{PortAddress}
use ha_artnet_led.ArtNet.PollReply.{ArtPollReply}
use ha_artnet_led.ArtNet.Server.{
  ArtNetServer, NodeKey, Node, key_of, port_address_eq, key_eq, key_beq, key_beq_iff, bytes_beq,
  get_addresses, add_node_by_ip, update_status_message,
}
use ha_artnet_led.ArtNet.Server.Sending.{or_empty}
use ha_artnet_led.ArtNet.Server.Nodes.{
  handle_poll_reply, learn_node, register, move_node, seen, reply_key, take_over, announce,
  difference,
}
use ha_artnet_led.ArtNet.Server.Frame.{NoLost, NoLost-append, status-by_ip, status-by_port}
use ha_artnet_led.ArtNet.Server.Index.{listens}
use ha_artnet_led.ArtNet.Server.Invariant.{
  registered, IsIndexed, get_addresses-Distinct, seen-registered, seen-key, member-difference,
  has_value-insert, move_node-Moved, Registers, register-Registers,
}

moved_true : (n o : Bool) → ((n && true) || (o && not ((o && not n) && true))) ≡ n
moved_true true o = refl
moved_true false true = refl
moved_true false false = refl

moved_false : (n p g : Bool) → ((n && false) || (p && not (g && false))) ≡ p
moved_false n p g = ground arith

-- The nodes after a reply: the one of its key has the reply's switches and ports.
lookup-twice :
    (key l : NodeKey) (n n2 : Node) (d : Dict NodeKey Node)
    → lookup l (insert key n2 (insert key n d)) ≡ (if key_beq l key then some n2 else lookup l d)
lookup-twice key l n n2 d =
    lookup-insert key l n2 (insert key n d) ∙ elim (Bool-cases (key_beq l key)) [
      | inl y ↦ rw y
      | inr n' ↦ rw (n', lookup-insert key l n d) (rw n')
    ]

-- The sets after the moves are the index of the table with the changed node.
module _ (s t : ArtNetServer) (key : NodeKey) (n n2 : Node) (old new : List PortAddress)
    (i : IsIndexed s) (by_ip : t.nodes_by_ip ≡ insert key n2 (insert key n s.nodes_by_ip))
    (sets : (b : PortAddress) (l : NodeKey)
      → listens b l t ≡ (
          (member b new && key_beq l key)
          || (listens b l s && not (member b (difference old new) && key_beq l key))))
    (was : (a : PortAddress) → listens a key s ≡ member a old) (has : get_addresses n2 ≡ ok new)
    (is_key : key_of n2 ≡ key) where
  now_known :
      (l : NodeKey)
      → lookup l t.nodes_by_ip ≡ (if key_beq l key then some n2 else lookup l s.nodes_by_ip)
  now_known l = ap (lookup l) by_ip ∙ lookup-twice key l n n2 s.nodes_by_ip

  now_indexed :
      (a : PortAddress) (l : NodeKey) → listens a l t ≡ registered a (lookup l t.nodes_by_ip)
  now_indexed a l = sets a l ∙ elim (Bool-cases (key_beq l key)) [
    | inl y ↦
        let e = (key_beq_iff l key).0 y in
        rw (now_known l, y, e, was a, member-difference a old new, has)
          (moved_true (member a new) (member a old))
    | inr n' ↦
        rw (now_known l, n')
          (moved_false (member a new) (listens a l s) (member a (difference old new))
            ∙ i.indexed a l)
  ]

  now_keyed : (l : NodeKey) (m : Node) → lookup l t.nodes_by_ip ≡ some m → key_of m ≡ l
  now_keyed l m e = elim (Bool-cases (key_beq l key)) [
    | inl y ↦
        let one : lookup l t.nodes_by_ip ≡ some n2 = now_known l ∙ rw y in
        let same : n2 ≡ m = some-injective (sym one ∙ e) in
        ap key_of (sym same) ∙ is_key ∙ sym ((key_beq_iff l key).0 y)
    | inr n' ↦
        let one : lookup l t.nodes_by_ip ≡ lookup l s.nodes_by_ip = now_known l ∙ rw n' in
        i.keyed l m (sym one ∙ e)
  ]

  reindexed : Unique t.nodes_by_port_address → IsIndexed t
  reindexed u = record {
    indexed = now_indexed;
    keyed = now_keyed;
    unique_ip =
        subst (λ (d : Dict NodeKey Node). Unique d) (sym by_ip)
          (insert-Unique key n2 _ (insert-Unique key n s.nodes_by_ip i.unique_ip));
    unique_port = u;
  }

announce-NoLost :
    (reply : ArtPollReply) (s : ArtNetServer) (o : Option Node) → NoLost (announce reply s o)
announce-NoLost reply s none = elim (Bool-cases s.has_new_callback) [
  | inl y ↦ rw y tt
  | inr n ↦ rw n tt
]
announce-NoLost reply s (some m) = elim (Bool-cases s.has_update_callback) [
  | inl y ↦ rw y tt
  | inr n ↦ rw n tt
]

module _ (now : ℕ) (reply : ArtPollReply) (s : ArtNetServer) (i : IsIndexed s) where
  known : Option Node
  known = lookup (reply_key reply) s.nodes_by_ip

  node : Node
  node = seen now reply known

  s1 : ArtNetServer
  s1 = add_node_by_ip node reply.source_ip reply.bind_index s

  learned :
      Registers now reply (reply_key reply) node s1
      → IsIndexed (register now reply (reply_key reply) node s1).after
        × NoLost (register now reply (reply_key reply) node s1).events
  unfolding known node s1 add_node_by_ip
  learned r =
      let key = reply_key reply in
      let n2 = take_over reply node in
      let s2 = add_node_by_ip n2 key.0 key.1 s1 in
      let is_key : key_of node ≡ key = seen-key now reply known (λ n e. i.keyed key n e) in
      let was : (a : PortAddress) → listens a key s ≡ member a r.old =
        λ a. i.indexed a key ∙ seen-registered now reply known a r.had in
      let m =
        move_node-Moved now key r.old r.new s2 r.moved (get_addresses-Distinct node r.had)
          i.unique_port (has_value-insert key n2 (insert key node s.nodes_by_ip) is_key)
          (λ x there. was x ∙ there) in
      let t : ArtNetServer = (move_node now key r.old r.new s2).after in
      let by_ip : (update_status_message t).nodes_by_ip
          ≡ insert key n2 (insert key node s.nodes_by_ip) =
        status-by_ip t ∙ m.by_ip in
      rw r.ran (
        reindexed s (update_status_message t) key node n2 r.old r.new i by_ip
            (λ b l. ap (λ d. member l (or_empty (lookup b d))) (status-by_port t) ∙ m.sets b l) was
            r.has is_key
            (subst (λ (d : Dict PortAddress (List NodeKey)). Unique d) (sym (status-by_port t))
              m.unique),
        NoLost-append (move_node now key r.old r.new s2).events [] m.no_lost tt,
      )

  learn_node-IsIndexed :
      (learn_node now reply (reply_key reply) known s).result ≡ ok tt
      → IsIndexed (learn_node now reply (reply_key reply) known s).after
        × NoLost (learn_node now reply (reply_key reply) known s).events
  unfolding learn_node ◌>>=◌ current change calls node s1
  learn_node-IsIndexed h =
      let (l, quiet) = learned (register-Registers now reply (reply_key reply) node s1 h) in
      (l, NoLost-append (announce reply s known) _ (announce-NoLost reply s known) quiet)

  -- A poll reply that is handled without an exception keeps the table of port addresses the exact
  -- index of the nodes, whether the node is new, known, moves to other addresses, or is the server
  -- itself; and no node is reported as lost.
  pub handle_poll_reply-IsIndexed :
      (addr : Bytes)
      → (handle_poll_reply now addr reply s).result ≡ ok tt
      → IsIndexed (handle_poll_reply now addr reply s).after
        × NoLost (handle_poll_reply now addr reply s).events
  unfolding handle_poll_reply ◌>>=◌ current known value_of
  handle_poll_reply-IsIndexed addr h = elim (Bool-cases (length reply.source_ip == 4)) [
    | inr short ↦ absurd (let raised : err Exc.os_error ≡ ok tt = rw short at h in cc)
    | inl four ↦ elim (Bool-cases (bytes_beq addr s.own_ip)) [
      | inl y ↦ unfold returns in rw (four, y) (i, tt)
      | inr n' ↦ rw (four, n') (learn_node-IsIndexed (rw (four, n') at h))
    ]
  ]
