-- ===== src/ArtNet/Server/Stale.antt =====
-- `remove_stale_nodes` of custom_components/dmx/server/artnet_server.py.
use ha_artnet_led.Base.{
  ℕ, ◌≡◌, refl, sym, ap, ◌∙◌, subst, Bool, true, false, not, ◌&&◌, ◌||◌, List, [], ◌∷◌, Option,
  some, none, arith, Bool-cases, Option-cases, some-injective, inl, inr, if◌then◌else◌,
}
use ha_artnet_led.Base.Result.{ok}
use ha_artnet_led.Base.Action.{value_of, returns, each, >>=-after}
use ha_artnet_led.Base.Dict.{Dict, Unique, lookup, contains, erase, lookup-erase, erase-Unique}
use ha_artnet_led.Base.Sets.{member}
use ha_artnet_led.ArtNet.Address.{PortAddress}
use ha_artnet_led.ArtNet.Server.{
  ArtNetServer, NodeKey, Node, key_of, Event, port_address_eq, key_eq, key_beq, key_beq_iff,
  get_addresses,
}
use ha_artnet_led.ArtNet.Server.Nodes.{
  has_value, is_fresh, remove_addresses, drop_stale, stale_keys, erase_all,
}
use ha_artnet_led.ArtNet.Server.Frame.{NoLost, NoLost-append}
use ha_artnet_led.ArtNet.Server.Index.{listens, and_not-false}
use ha_artnet_led.ArtNet.Server.Tables.{RemovesAll, ListensAll, remove_each, remove_all-RemovesAll}
use ha_artnet_led.ArtNet.Server.Invariant.{
  IsIndexed, registered, get_addresses-Distinct, key_refl, or_true,
}

-- The node of a key, if it is silent for too long, or if it is not.
abbrev pub stale_only : ℕ → Option Node → Option Node
stale_only now none = none
stale_only now (some n) = if is_fresh now n then none else some n

abbrev pub fresh_only : ℕ → Option Node → Option Node
fresh_only now none = none
fresh_only now (some n) = if is_fresh now n then some n else none

-- What the loop needs of the nodes before it: their addresses can be computed, and the sets hold them.
abbrev pub Fits : Dict NodeKey Node → ArtNetServer → Type 0
Fits [] s = Unit
Fits ((k, n) ∷ d) s =
    ((all : List PortAddress) × (get_addresses n ≡ ok all) × ListensAll all k s)
    × (key_of n ≡ k)
    × (has_value k s.nodes_by_ip ≡ true)
    × (contains k d ≡ false)
    × Fits d s

still_all :
    (all gone : List PortAddress) (key k : NodeKey) (s t : ArtNetServer) (es : List Event)
    → RemovesAll gone key s t es
    → key_beq k key ≡ false
    → ListensAll all k s
    → ListensAll all k t
still_all all gone key k s t es r other l x there = r.out x k ∙ rw (l x there, other) (ground arith)

contains-ne :
    (key k : NodeKey) (n : Node) (d : Dict NodeKey Node)
    → contains key ((k, n) ∷ d) ≡ false
    → (key_beq k key ≡ false) × (contains key d ≡ false)
contains-ne key k n d h = (ground (arith, key_beq_iff key k, key_beq_iff k key), ground arith)

Fits-RemovesAll :
    (gone : List PortAddress) (key : NodeKey) (s t : ArtNetServer) (es : List Event)
    (d : Dict NodeKey Node)
    → RemovesAll gone key s t es
    → contains key d ≡ false
    → Fits d s
    → Fits d t
Fits-RemovesAll gone key s t es [] r new f = tt
Fits-RemovesAll gone key s t es ((k, n) ∷ d) r new ((all, e, l), is_key, known, once, f) =
    let (other, rest) = contains-ne key k n d new in
    (
      (all, e, still_all all gone key k s t es r other l),
      is_key,
      rw (r.by_ip) known,
      once,
      Fits-RemovesAll gone key s t es d r rest f,
    )

-- What the loop does to the sets.
pub record Drops (now : ℕ) (d : Dict NodeKey Node) (s t : ArtNetServer) (es : List Event)
    : Type 0 where
  pub by_ip : t.nodes_by_ip ≡ s.nodes_by_ip
  pub out :
      (b : PortAddress) (l : NodeKey)
      → listens b l t ≡ (listens b l s && not (registered b (stale_only now (lookup l d))))
  pub unique : Unique t.nodes_by_port_address
  pub no_lost : NoLost es

not-contains : (k : NodeKey) (d : Dict NodeKey Node) → contains k d ≡ false → lookup k d ≡ none
not-contains k d h = elim (Option-cases (lookup k d)) [
  | inl e ↦ e
  | inr (n, e) ↦ absurd (let yes_and_not : true ≡ false = rw (e, contains) at h in cc)
]

fresh_out :
    (now : ℕ) (b : PortAddress) (l k : NodeKey) (n : Node) (d : Dict NodeKey Node)
    → is_fresh now n ≡ true
    → contains k d ≡ false
    → registered b (stale_only now (lookup l d))
      ≡ registered b (stale_only now (lookup l ((k, n) ∷ d)))
fresh_out now b l k n d fresh once = elim (Bool-cases (key_beq l k)) [
  | inl y ↦ rw (y, (key_beq_iff l k).0 y, not-contains k d once, fresh)
  | inr n' ↦ rw n'
]

drop_out :
    (now : ℕ) (b : PortAddress) (l k : NodeKey) (n : Node) (d : Dict NodeKey Node) (p : Bool)
    (all : List PortAddress)
    → is_fresh now n ≡ false
    → get_addresses n ≡ ok all
    → contains k d ≡ false
    → ((p && not (member b all && key_beq l k)) && not (registered b (stale_only now (lookup l d))))
      ≡ (p && not (registered b (stale_only now (lookup l ((k, n) ∷ d)))))
drop_out now b l k n d p all stale e once = elim (Bool-cases (key_beq l k)) [
  | inl y ↦
      let same = (key_beq_iff l k).0 y in
      rw (y, same, not-contains k d once, stale, e) (ground arith)
  | inr n' ↦ rw n' (ground arith)
]

remove_addresses-RemovesAll :
    (n : Node) (k : NodeKey) (all : List PortAddress) (s : ArtNetServer)
    → get_addresses n ≡ ok all
    → key_of n ≡ k
    → Unique s.nodes_by_port_address
    → has_value k s.nodes_by_ip ≡ true
    → ListensAll all k s
    → RemovesAll all k s (remove_addresses n s).after (remove_addresses n s).events
      × ((remove_addresses n s).result ≡ ok tt)
unfolding remove_addresses value_of
remove_addresses-RemovesAll n k all s e is_key u known l =
    let same =
      >>=-after (value_of (get_addresses n)) (λ xs. each (remove_each (key_of n)) xs) s all e in
    let (r, done) =
      remove_all-RemovesAll all (key_of n) s (get_addresses-Distinct n e) u
        (subst (λ (i : NodeKey). has_value i s.nodes_by_ip ≡ true) (sym is_key) known)
        (subst (λ (i : NodeKey). ListensAll all i s) (sym is_key) l) in
    rw same (
      subst
          (λ (i : NodeKey).
            RemovesAll all i s (each (remove_each (key_of n)) all s).after
              (each (remove_each (key_of n)) all s).events)
          is_key r,
      done,
    )

pub drop_stale-Drops :
    (now : ℕ) (d : Dict NodeKey Node) (s : ArtNetServer)
    → Unique s.nodes_by_port_address
    → Fits d s
    → Drops now d s (drop_stale now d s).after (drop_stale now d s).events
      × ((drop_stale now d s).result ≡ ok tt)
unfolding drop_stale
drop_stale-Drops now [] s u f =
    unfold returns in
    (
      record { by_ip = refl; out = λ b l. and_not-false (listens b l s); unique = u; no_lost = tt },
      refl,
    )
drop_stale-Drops now ((k, n) ∷ d) s u ((all, e, l), is_key, known, once, f) =
    elim (Bool-cases (is_fresh now n)) [
      | inl fresh ↦
          let (r, done) = drop_stale-Drops now d s u f in
          rw fresh (
            record {
              by_ip = r.by_ip;
              out = λ b l.
                  r.out b l
                  ∙ ap (λ (p : Bool). listens b l s && not p) (fresh_out now b l k n d fresh once);
              unique = r.unique;
              no_lost = r.no_lost;
            },
            done,
          )
      | inr stale ↦
          let (r, returned) = remove_addresses-RemovesAll n k all s e is_key u known l in
          let t : ArtNetServer = (remove_addresses n s).after in
          let (rest, done) =
            drop_stale-Drops now d t r.unique (Fits-RemovesAll all k s t _ d r once f) in
          rw (stale, >>=-after (remove_addresses n) (λ _. drop_stale now d) s tt returned)
            (
              record {
                by_ip = rest.by_ip ∙ r.by_ip;
                out = λ b i.
                    rest.out b i
                    ∙ ap (λ (p : Bool). p && not (registered b (stale_only now (lookup i d))))
                        (r.out b i)
                    ∙ drop_out now b i k n d (listens b i s) all stale e once;
                unique = rest.unique;
                no_lost =
                    NoLost-append (remove_addresses n s).events (drop_stale now d t).events
                      r.no_lost rest.no_lost;
              },
              done,
            )
    ]

-- Every node of the table has addresses that the constructor accepts.
abbrev pub HaveAddresses : ArtNetServer → Type 0
HaveAddresses s =
    (k : NodeKey) (n : Node)
    → lookup k s.nodes_by_ip ≡ some n
    → (all : List PortAddress) × (get_addresses n ≡ ok all)

has_value-lookup :
    (k : NodeKey) (n : Node) (d : Dict NodeKey Node)
    → lookup k d ≡ some n
    → key_of n ≡ k
    → has_value k d ≡ true
has_value-lookup k n [] h e = absurd (cc)
has_value-lookup k n ((j, m) ∷ d) h e = elim (Bool-cases (key_beq k j)) [
  | inl y ↦
      let same : m ≡ n = some-injective (rw y at h) in
      let is_key : key_of m ≡ k = ap key_of same ∙ e in rw (is_key, key_refl k)
  | inr n' ↦ rw (has_value-lookup k n d (rw n' at h) e) (or_true (key_beq k (key_of m)))
]

pub Fits-of :
    (s : ArtNetServer) (d : Dict NodeKey Node)
    → IsIndexed s
    → HaveAddresses s
    → Unique d
    → ((k : NodeKey) (n : Node) → lookup k d ≡ some n → lookup k s.nodes_by_ip ≡ some n)
    → Fits d s
Fits-of s [] i h u part = tt
Fits-of s ((k, n) ∷ d) i h (once, u) part =
    let there : lookup k s.nodes_by_ip ≡ some n = part k n (rw (key_refl k)) in
    let (all, e) = h k n there in
    (
      (all, e, λ x m. i.indexed x k ∙ rw (there, e) m),
      i.keyed k n there,
      has_value-lookup k n s.nodes_by_ip there (i.keyed k n there),
      once,
      Fits-of s d i h u (λ j m g. part j m (elim (Bool-cases (key_beq j k)) [
        | inl y ↦ absurd (
            let no_more : none ≡ some m =
              sym (not-contains k d once) ∙ rw ((key_beq_iff j k).0 y) at g in
            cc)
        | inr n' ↦ rw n' g
      ])),
    )

stale_keys-contains :
    (now : ℕ) (k : NodeKey) (d : Dict NodeKey Node)
    → contains k d ≡ false
    → member k (stale_keys now d) ≡ false
stale_keys-contains now k [] h = refl
stale_keys-contains now k ((j, n) ∷ d) h =
    let (other, rest) = contains-ne k j n d h in
    let ne : key_beq k j ≡ false = ground (arith, key_beq_iff j k, key_beq_iff k j) in
    elim (Bool-cases (is_fresh now n)) [
      | inl y ↦ rw y (stale_keys-contains now k d rest)
      | inr n' ↦ rw (n', ne) (stale_keys-contains now k d rest)
    ]

none_twice :
    (m e : Bool) (o : Option Node)
    → (if m then none else (if e then none else o)) ≡ (if e || m then none else o)
none_twice true true o = refl
none_twice true false o = refl
none_twice false true o = refl
none_twice false false o = refl

pub stale_keys-lookup :
    (now : ℕ) (l : NodeKey) (d : Dict NodeKey Node)
    → Unique d
    → (if member l (stale_keys now d) then none else lookup l d) ≡ fresh_only now (lookup l d)
stale_keys-lookup now l [] u = refl
stale_keys-lookup now l ((k, n) ∷ d) (once, u) = elim (Bool-cases (is_fresh now n)) [
  | inl fresh ↦ elim (Bool-cases (key_beq l k)) [
    | inl y ↦ rw (fresh, y, (key_beq_iff l k).0 y, stale_keys-contains now k d once) (rw fresh)
    | inr n' ↦ rw (fresh, n') (stale_keys-lookup now l d u)
  ]
  | inr stale ↦ elim (Bool-cases (key_beq l k)) [
    | inl y ↦ rw (stale, y) (rw stale)
    | inr n' ↦ rw (stale, n') (stale_keys-lookup now l d u)
  ]
]

pub erase_all-lookup :
    (ks : List NodeKey) (l : NodeKey) (d : Dict NodeKey Node)
    → Unique d
    → lookup l (erase_all ks d) ≡ (if member l ks then none else lookup l d)
erase_all-lookup [] l d u = refl
erase_all-lookup (k ∷ ks) l d u =
    erase_all-lookup ks l (erase k d) (erase-Unique k d u)
    ∙ ap (λ (o : Option Node). if member l ks then none else o) (lookup-erase k l d u)
    ∙ none_twice (member l ks) (key_beq l k) (lookup l d)

pub erase_all-Unique :
    (ks : List NodeKey) (d : Dict NodeKey Node) → Unique d → Unique (erase_all ks d)
erase_all-Unique [] d u = u
erase_all-Unique (k ∷ ks) d u = erase_all-Unique ks (erase k d) (erase-Unique k d u)
