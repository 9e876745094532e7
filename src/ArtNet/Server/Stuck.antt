-- ===== src/ArtNet/Server/Stuck.antt =====
-- A node that cannot be cleaned stops `remove_stale_nodes` of
-- custom_components/dmx/server/artnet_server.py.
use ha_artnet_led.Base.{
  ℕ, ◌+◌, ◌≤◌, ◌≡◌, refl, sym, ap, ◌∙◌, true, false, List, [], ◌∷◌, Option, some, none, arith, All,
  length, Bool-cases, some-injective, inl, inr, if◌then◌else◌,
}
use ha_artnet_led.Base.Result.{ok, err, Exc, Result-cases}
use ha_artnet_led.Base.Action.{
  Done, ◌>>=◌, ◌>>◌, change, current, calls, value_of, >>=-after, >>=-raised, Holds, IsJoined,
  >>=-Holds, returns-Holds, current-Holds, value_of-Holds, only_if-Holds, each-Holds,
}
use ha_artnet_led.Base.Dict.{Dict, lookup, lookup-insert}
use ha_artnet_led.ArtNet.Address.{PortAddress}
use ha_artnet_led.ArtNet.Server.{
  ArtNetServer, NodeKey, Node, key_of, Event, port_address_eq, key_eq, key_beq, bytes_beq,
  add_node_by_ip, get_addresses, update_status_message,
}
use ha_artnet_led.Base.Bytes.{Bytes}
use ha_artnet_led.ArtNet.PollReply.{ArtPollReply}
use ha_artnet_led.ArtNet.Server.Replies.{Method}
use ha_artnet_led.ArtNet.Server.Sending.{is_empty}
use ha_artnet_led.ArtNet.Server.Nodes.{
  handle_poll_reply, learn_node, register, reply_key, seen, take_over, is_fresh, lose_node,
  remove_from, remove_addresses, remove_node_by_port_address, drop_stale, stale_keys, erase_all,
  remove_stale_nodes,
}
use ha_artnet_led.ArtNet.Server.Index.{without-by_ip}
use ha_artnet_led.ArtNet.Server.Invariant.{key_refl}

-- Cleaning and the exception of a node that cannot be cleaned.
abbrev SameNodeTable : ArtNetServer → ArtNetServer → List Event → Type 0
SameNodeTable s t es = t.nodes_by_ip ≡ s.nodes_by_ip

table : IsJoined SameNodeTable
table = record { stay = λ s. refl; join = λ s t u es fs h k. k ∙ h }

change-table :
    (f : ArtNetServer → ArtNetServer)
    → ((s : ArtNetServer) → (f s).nodes_by_ip ≡ s.nodes_by_ip)
    → Holds SameNodeTable (change f)
unfolding change
change-table f h = record { at = h }

calls-table : (es : List Event) → Holds SameNodeTable (calls es)
unfolding calls
calls-table es = record { at = λ s. refl }

lose_node-table : (key : NodeKey) → Holds SameNodeTable (lose_node key)
unfolding lose_node
lose_node-table key = >>=-Holds table _ _ (current-Holds table) (λ s. only_if-Holds table _ _ (
    >>=-Holds table _ _ (change-table _ (λ t. refl))
      (λ _. only_if-Holds table _ _ (calls-table _))))

remove_from-table :
    (a : PortAddress) (key : NodeKey) (o : Option (List NodeKey))
    → Holds SameNodeTable (remove_from a key o)
remove_from-table a key none = value_of-Holds table _
remove_from-table a key (some []) = returns-Holds table tt
remove_from-table a key (some (k ∷ ks)) =
    >>=-Holds table _ _ (change-table _ (without-by_ip a key (k ∷ ks))) (λ _. lose_node-table key)

remove_addresses-table : (n : Node) → Holds SameNodeTable (remove_addresses n)
unfolding remove_addresses remove_node_by_port_address
remove_addresses-table n = >>=-Holds table _ _ (value_of-Holds table (get_addresses n)) (λ all.
    each-Holds table _ all (λ a.
      >>=-Holds table _ _ (current-Holds table)
        (λ s. remove_from-table a (key_of n) (lookup a s.nodes_by_port_address))))

-- The entry of the key stands behind a fresh one, or behind one whose addresses were removed.
later :
    (now : ℕ) (k j : NodeKey) (n m : Node) (d : Dict NodeKey Node)
    → is_fresh now m ≡ true
    → is_fresh now n ≡ false
    → lookup k ((j, m) ∷ d) ≡ some n
    → lookup k d ≡ some n
later now k j n m d fresh stale h = elim (Bool-cases (key_beq k j)) [
  | inl y ↦
      let same : m ≡ n = some-injective (rw y at h) in
      absurd (let no_more : true ≡ false = sym fresh ∙ ap (is_fresh now) same ∙ stale in cc)
  | inr n' ↦ rw n' at h
]

remove_addresses-raises :
    (n : Node) (e : Exc) (s : ArtNetServer)
    → get_addresses n ≡ err e
    → (remove_addresses n s).result ≡ err e
unfolding remove_addresses value_of
remove_addresses-raises n e s h =
    ap (λ (d : Done ArtNetServer Event (Unit {0})). d.result)
      (>>=-raised (value_of (get_addresses n)) _ s e h)

not_here :
    (k j : NodeKey) (n m : Node) (d : Dict NodeKey Node) (s : ArtNetServer) (u : Unit {0}) (e : Exc)
    → (remove_addresses m s).result ≡ ok u
    → get_addresses n ≡ err e
    → lookup k ((j, m) ∷ d) ≡ some n
    → lookup k d ≡ some n
not_here k j n m d s u e returned refused h = elim (Bool-cases (key_beq k j)) [
  | inl y ↦
      let same : m ≡ n = some-injective (rw y at h) in
      absurd (
        let both : err e ≡ ok u =
          sym (remove_addresses-raises m e s (ap get_addresses same ∙ refused)) ∙ returned in
        cc)
  | inr n' ↦ rw n' at h
]

-- The loop raises where it meets a silent node without addresses, if nothing before it raised.
drop_stale-stuck :
    (now : ℕ) (k : NodeKey) (n : Node) (e : Exc) (d : Dict NodeKey Node) (s : ArtNetServer)
    → lookup k d ≡ some n
    → is_fresh now n ≡ false
    → get_addresses n ≡ err e
    → (x : Exc) × ((drop_stale now d s).result ≡ err x)
      × ((drop_stale now d s).after.nodes_by_ip ≡ s.nodes_by_ip)
unfolding drop_stale
drop_stale-stuck now k n e [] s h stale no_addresses = absurd (cc)
drop_stale-stuck now k n e ((j, m) ∷ d) s h stale no_addresses =
    elim (Bool-cases (is_fresh now m)) [
      | inl y ↦
          let (x, raised, same) =
            drop_stale-stuck now k n e d s (later now k j n m d y stale h) stale no_addresses in
          rw y (x, raised, same)
      | inr n' ↦ elim (Result-cases (remove_addresses m s).result) [
        | inr (x, raised) ↦
            rw (n', >>=-raised (remove_addresses m) (λ _. drop_stale now d) s x raised)
              (x, refl, (remove_addresses-table m).at s)
        | inl (u, returned) ↦
            let t : ArtNetServer = (remove_addresses m s).after in
            let (x, raised, same) =
              drop_stale-stuck now k n e d t (not_here k j n m d s u e returned no_addresses h)
                stale no_addresses in
            rw (n', >>=-after (remove_addresses m) (λ _. drop_stale now d) s u returned)
              (x, raised, same ∙ (remove_addresses-table m).at s)
      ]
    ]

-- While a node is silent whose addresses the constructor refuses, a cleaning raises, and removes no
-- node from the table.
pub remove_stale_nodes-stuck :
    (now : ℕ) (k : NodeKey) (n : Node) (e : Exc) (s : ArtNetServer)
    → lookup k s.nodes_by_ip ≡ some n
    → is_fresh now n ≡ false
    → get_addresses n ≡ err e
    → (x : Exc) × ((remove_stale_nodes now s).result ≡ err x)
      × ((remove_stale_nodes now s).after.nodes_by_ip ≡ s.nodes_by_ip)
unfolding remove_stale_nodes current change ◌>>=◌
remove_stale_nodes-stuck now k n e s h stale no_addresses =
    let (x, raised, same) = drop_stale-stuck now k n e s.nodes_by_ip s h stale no_addresses in
    let keys = stale_keys now s.nodes_by_ip in
    let rest : Method (Unit {0}) =
      change (λ t. record t { nodes_by_ip = erase_all keys t.nodes_by_ip })
      >> change (λ t. if is_empty keys then t else update_status_message t) in
    rw (>>=-raised (drop_stale now s.nodes_by_ip) (λ _. rest) s x raised) (x, refl, same)

-- A server after cleanings at the times, one after the other.
abbrev pub cleaned_at : List ℕ → ArtNetServer → ArtNetServer
cleaned_at [] s = s
cleaned_at (t ∷ ts) s = cleaned_at ts (remove_stale_nodes t s).after

-- Cleanings at times when the node is silent change nothing in the table.
cleaned_at-stuck :
    (k : NodeKey) (n : Node) (e : Exc) (ts : List ℕ) (s : ArtNetServer)
    → lookup k s.nodes_by_ip ≡ some n
    → All (λ t. n.last_seen + 10000000 ≤ t) ts
    → get_addresses n ≡ err e
    → (cleaned_at ts s).nodes_by_ip ≡ s.nodes_by_ip
cleaned_at-stuck k n e [] s h silent no_addresses = refl
cleaned_at-stuck k n e (t ∷ ts) s h (passed, silent) no_addresses =
    let (x, raised, same) = remove_stale_nodes-stuck t k n e s h (ground arith) no_addresses in
    cleaned_at-stuck k n e ts (remove_stale_nodes t s).after (ap (lookup k) same ∙ h) silent
      no_addresses
    ∙ same

module _ (now : ℕ) (addr : Bytes) (reply : ArtPollReply) (s : ArtNetServer) (e : Exc)
    (four_bytes : length reply.source_ip ≡ 4) (from_other : bytes_beq addr s.own_ip ≡ false)
    (new : lookup (reply_key reply) s.nodes_by_ip ≡ none)
    (refused : get_addresses (take_over reply (seen now reply none)) ≡ err e) where
  node : Node
  node = seen now reply none

  no_addresses_yet : get_addresses node ≡ ok []
  unfolding get_addresses node
  no_addresses_yet = refl

  register_raises :
      (t : ArtNetServer)
      → register now reply (reply_key reply) node t ≡ record {
        after = add_node_by_ip (take_over reply node) reply.source_ip reply.bind_index t;
        events = [];
        result = err e;
      }
  unfolding register value_of change node
  register_raises t =
      >>=-after (value_of (get_addresses node)) _ t [] no_addresses_yet
      ∙ >>=-after (change (add_node_by_ip (take_over reply node) reply.source_ip reply.bind_index))
          _ t tt refl
      ∙ >>=-raised (value_of (get_addresses (take_over reply node))) _ _ e refused

  -- The reply raises when the node is in the table with its switches and ports.
  refused_reply :
      ((handle_poll_reply now addr reply s).result ≡ err e)
      × (lookup (reply_key reply) (handle_poll_reply now addr reply s).after.nodes_by_ip
          ≡ some (take_over reply node))
  unfolding handle_poll_reply learn_node current change calls value_of ◌>>=◌ add_node_by_ip node
  refused_reply =
      rw
        (
          four_bytes,
          from_other,
          new,
          register_raises (add_node_by_ip node reply.source_ip reply.bind_index s),
        )
        (
          refl,
          lookup-insert (reply_key reply) (reply_key reply) (take_over reply node) _
              ∙ rw (key_refl (reply_key reply)),
        )

  -- A poll reply with a source address of four bytes, from another machine and of an unknown node,
  -- whose port addresses the constructor refuses, as with a net above 15, raises. If from then on
  -- there are only cleanings, however many and each ten seconds after the reply or later, every one
  -- of them raises as well, and no node is removed from the table.
  pub refused_reply_stops_cleaning :
      (earlier : List ℕ) (then_ : ℕ)
      → All (λ t. now + 10000000 ≤ t) earlier
      → now + 10000000 ≤ then_
      → let heard = (handle_poll_reply now addr reply s).after in
        let cleaning = remove_stale_nodes then_ (cleaned_at earlier heard) in
        ((handle_poll_reply now addr reply s).result ≡ err e)
        × (x : Exc) × (cleaning.result ≡ err x)
        × (cleaning.after.nodes_by_ip ≡ heard.nodes_by_ip)
  unfolding node
  refused_reply_stops_cleaning earlier then_ before passed =
      let heard : ArtNetServer = (handle_poll_reply now addr reply s).after in
      let n : Node = take_over reply node in
      let (raised, there) = refused_reply in
      let kept : (cleaned_at earlier heard).nodes_by_ip ≡ heard.nodes_by_ip =
        cleaned_at-stuck (reply_key reply) n e earlier heard there before refused in
      let (x, stuck, same) =
        remove_stale_nodes-stuck then_ (reply_key reply) n e (cleaned_at earlier heard)
          (ap (lookup (reply_key reply)) kept ∙ there) (ground arith) refused in
      (raised, x, stuck, same ∙ kept)
