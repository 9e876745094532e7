-- ===== src/ArtNet/Server/Invariant.antt =====
-- The invariant of the node tables of custom_components/dmx/server/artnet_server.py: the table by
-- port address is the index of the table by address and bind index.
use ha_artnet_led.Base.{
  ℕ, ◌≡◌, refl, sym, ap, ◌∙◌, subst, Bool, true, false, not, ◌&&◌, ◌||◌, List, [], ◌∷◌, ◌++◌,
  Option, some, none, arith, Bool-cases, inl, inr,
}
use ha_artnet_led.Base.Result.{Result, ok, err, ok-injective, >>=-returned as call_returned}
use ha_artnet_led.Base.Action.{Done, change, value_of, each, >>=-after, >>=-returned}
use ha_artnet_led.Base.Dict.{Dict, Unique, lookup, insert}
use ha_artnet_led.Base.Sets.{member, add, Distinct, add-Distinct}
use ha_artnet_led.ArtNet.Address.{PortAddress, make_port_address}
use ha_artnet_led.ArtNet.Flags.{Port}
use ha_artnet_led.ArtNet.PollReply.{ArtPollReply}
use ha_artnet_led.ArtNet.Server.{
  ArtNetServer, NodeKey, Node, key_of, Event, port_address_eq, key_eq, key_beq, key_beq_iff,
  address_eq_iff, get_addresses, port_addresses, add_direction, add_node_by_ip,
  update_status_message,
}
use ha_artnet_led.ArtNet.Server.Replies.{Method}
use ha_artnet_led.ArtNet.Server.Nodes.{
  register, move_node, seen, reply_key, take_over, difference, has_value, add_new,
}
use ha_artnet_led.ArtNet.Server.Frame.{NoLost, NoLost-append}
use ha_artnet_led.ArtNet.Server.Index.{listens, and_true}
use ha_artnet_led.ArtNet.Server.Tables.{
  ListensAll, remove_each, remove_all-RemovesAll, add_all-AddsAll,
}

abbrev pub among : PortAddress → Result (List PortAddress) → Bool
among a (ok addresses) = member a addresses
among a (err e) = false

-- The node of the key is in the table, and the address is one of its own.
abbrev pub registered : PortAddress → Option Node → Bool
registered a none = false
registered a (some n) = among a (get_addresses n)

-- The invariant: a node is in the set of a port address exactly if it is in the table and the
-- address is one of its own; and the keys are those of the nodes.
pub record IsIndexed (s : ArtNetServer) : Type 0 where
  pub indexed :
      (a : PortAddress) (l : NodeKey) → listens a l s ≡ registered a (lookup l s.nodes_by_ip)
  pub keyed : (l : NodeKey) (n : Node) → lookup l s.nodes_by_ip ≡ some n → key_of n ≡ l
  pub unique_ip : Unique s.nodes_by_ip
  pub unique_port : Unique s.nodes_by_port_address

-- The addresses of a node are a set.
add_direction-Distinct :
    (b : Bool) (net sub universe : ℕ) (found : List PortAddress) {all : List PortAddress}
    → Distinct found
    → add_direction b net sub universe found ≡ ok all
    → Distinct all
add_direction-Distinct false net sub universe found d e =
    subst (λ (m : List PortAddress). Distinct m) (ok-injective e) d
add_direction-Distinct true net sub universe found d e =
    let (a, m, r) = call_returned (λ a. ok (add a found)) (make_port_address net sub universe) e in
    subst (λ (m : List PortAddress). Distinct m) (ok-injective r) (add-Distinct a found d)

pub port_addresses-Distinct :
    (ps : List Port) (net sub : ℕ) (found : List PortAddress) {all : List PortAddress}
    → Distinct found
    → port_addresses ps net sub found ≡ ok all
    → Distinct all
port_addresses-Distinct [] net sub found d e =
    subst (λ (m : List PortAddress). Distinct m) (ok-injective e) d
port_addresses-Distinct (p ∷ ps) net sub found d e =
    let (inputs, i, r) = call_returned _ (add_direction p.input net sub p.sw_in found) e in
    let (both, o, r') = call_returned _ (add_direction p.output net sub p.sw_out inputs) r in
    port_addresses-Distinct ps net sub both
      (add_direction-Distinct p.output net sub p.sw_out inputs
        (add_direction-Distinct p.input net sub p.sw_in found d i) o)
      r'

pub get_addresses-Distinct :
    (n : Node) {all : List PortAddress} → get_addresses n ≡ ok all → Distinct all
unfolding get_addresses
get_addresses-Distinct n e = port_addresses-Distinct n.ports n.net_switch n.sub_switch [] tt e

-- A node is registered under the addresses that it had, and a new one under none.
pub seen-registered :
    (now : ℕ) (reply : ArtPollReply) (known : Option Node) (a : PortAddress)
    {old : List PortAddress}
    → get_addresses (seen now reply known) ≡ ok old
    → registered a known ≡ member a old
unfolding get_addresses
seen-registered now reply none a e = ap (among a) e
seen-registered now reply (some n) a e = ap (among a) e

pub seen-key :
    (now : ℕ) (reply : ArtPollReply) (known : Option Node)
    → ((n : Node) → known ≡ some n → key_of n ≡ reply_key reply)
    → key_of (seen now reply known) ≡ reply_key reply
seen-key now reply none h = refl
seen-key now reply (some n) h = h n refl

-- The addresses that stay or go.
pub member-difference :
    (b : PortAddress) (xs ys : List PortAddress)
    → member b (difference xs ys) ≡ (member b xs && not (member b ys))
member-difference b [] ys = refl
member-difference b (x ∷ xs) ys = ground (arith, address_eq_iff b x, member-difference b xs ys)

pub difference-Distinct : (xs ys : List PortAddress) → Distinct xs → Distinct (difference xs ys)
difference-Distinct [] ys d = tt
difference-Distinct (x ∷ xs) ys (new, d) = elim (Bool-cases (member x ys)) [
  | inl y ↦ rw y (difference-Distinct xs ys d)
  | inr n ↦ rw n (member-difference x xs ys ∙ rw new, difference-Distinct xs ys d)
]

pub key_refl : (key : NodeKey) → key_beq key key ≡ true
key_refl key = (key_beq_iff key key).1 refl

pub or_true : (b : Bool) → (b || true) ≡ true
or_true true = refl
or_true false = refl

-- The value under the key is among the values.
pub has_value-insert :
    (key : NodeKey) (n : Node) (d : Dict NodeKey Node)
    → key_of n ≡ key
    → has_value key (insert key n d) ≡ true
has_value-insert key n [] e = rw (e, key_refl key)
has_value-insert key n ((k, m) ∷ d) e = elim (Bool-cases (key_beq key k)) [
  | inl y ↦ rw (y, e, key_refl key)
  | inr n' ↦ rw (n', has_value-insert key n d e) (or_true (key_beq key (key_of m)))
]

pub in_old :
    (x : PortAddress) (old new : List PortAddress)
    → member x (difference old new) ≡ true
    → member x old ≡ true
in_old x old new there = (and_true (member x old) _ (sym (member-difference x old new) ∙ there)).0

-- What `move_node` does to the sets, where it returns.
pub record Moved (old new : List PortAddress) (key : NodeKey) (s t : ArtNetServer) (es : List Event)
    : Type 0 where
  pub by_ip : t.nodes_by_ip ≡ s.nodes_by_ip
  pub sets :
      (b : PortAddress) (l : NodeKey)
      → listens b l t ≡ (
          (member b new && key_beq l key)
          || (listens b l s && not (member b (difference old new) && key_beq l key)))
  pub unique : Unique t.nodes_by_port_address
  pub no_lost : NoLost es

pub move_node-Moved :
    (now : ℕ) (key : NodeKey) (old new : List PortAddress) (s : ArtNetServer)
    → (move_node now key old new s).result ≡ ok tt
    → Distinct old
    → Unique s.nodes_by_port_address
    → has_value key s.nodes_by_ip ≡ true
    → ListensAll old key s
    → Moved old new key s (move_node now key old new s).after (move_node now key old new s).events
unfolding move_node
move_node-Moved now key old new s h d u known all =
    let gone = difference old new in
    let (r, returned) =
      remove_all-RemovesAll gone key s (difference-Distinct old new d) u known
        (λ x there. all x (in_old x old new there)) in
    let t : ArtNetServer = (each (remove_each key) gone s).after in
    let adds : Method (Unit {0}) = each (add_new now key) new in
    let same = >>=-after (each (remove_each key) gone) (λ _. adds) s tt returned in
    let a =
      add_all-AddsAll now key new t
        (sym (ap (λ (x : Done ArtNetServer Event (Unit {0})). x.result) same) ∙ h) in
    rw same (record {
      by_ip = a.by_ip ∙ r.by_ip;
      sets =
          λ b l. a.into b l ∙ ap (λ (p : Bool). (member b new && key_beq l key) || p) (r.out b l);
      unique = a.unique r.unique;
      no_lost =
          NoLost-append (each (remove_each key) gone s).events (adds t).events r.no_lost a.no_lost;
    })

-- What `register` does where it returns.
pub record Registers (now : ℕ) (reply : ArtPollReply) (key : NodeKey) (node : Node)
    (s : ArtNetServer) : Type 0 where
  pub old : List PortAddress
  pub new : List PortAddress
  pub had : get_addresses node ≡ ok old
  pub has : get_addresses (take_over reply node) ≡ ok new
  pub moved :
      (move_node now key old new (add_node_by_ip (take_over reply node) key.0 key.1 s)).result
      ≡ ok tt
  pub ran : register now reply key node s ≡ record {
    after =
        update_status_message
          (move_node now key old new (add_node_by_ip (take_over reply node) key.0 key.1 s)).after;
    events =
        (move_node now key old new (add_node_by_ip (take_over reply node) key.0 key.1 s)).events
        ++ [];
    result = ok tt;
  }

pub register-Registers :
    (now : ℕ) (reply : ArtPollReply) (key : NodeKey) (node : Node) (s : ArtNetServer)
    → (register now reply key node s).result ≡ ok tt
    → Registers now reply key node s
unfolding register value_of change
register-Registers now reply key node s h =
    let s2 = add_node_by_ip (take_over reply node) key.0 key.1 s in
    let (old, had, h1) = >>=-returned (value_of (get_addresses node)) _ s h in
    let (u, e, h2) =
      >>=-returned (change (add_node_by_ip (take_over reply node) key.0 key.1)) _ s h1 in
    let (new, has, h3) = >>=-returned (value_of (get_addresses (take_over reply node))) _ s2 h2 in
    let (v, moved, h4) = >>=-returned (move_node now key old new) _ s2 h3 in
    record {
      old = old;
      new = new;
      had = had;
      has = has;
      moved = moved;
      ran =
          >>=-after (value_of (get_addresses node)) _ s old had
          ∙ >>=-after (change (add_node_by_ip (take_over reply node) key.0 key.1)) _ s tt refl
          ∙ >>=-after (value_of (get_addresses (take_over reply node))) _ s2 new has
          ∙ >>=-after (move_node now key old new) _ s2 tt moved;
    }
