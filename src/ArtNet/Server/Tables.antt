-- ===== src/ArtNet/Server/Tables.antt =====
-- The node tables under the loops of `handle_poll_reply` and `remove_stale_nodes`
-- (custom_components/dmx/server/artnet_server.py).
use ha_artnet_led.Base.{
  ℕ, ◌≡◌, refl, sym, ap, ◌∙◌, subst, Bool, true, false, not, ◌&&◌, ◌||◌, List, [], ◌∷◌, arith,
  Bool-cases, inl, inr,
}
use ha_artnet_led.Base.Result.{ok, Result-cases}
use ha_artnet_led.Base.Action.{change, returns, each, >>=-after, >>=-raised, >>=-returned}
use ha_artnet_led.Base.Dict.{Dict, Unique, lookup}
use ha_artnet_led.Base.Sets.{member, Distinct}
use ha_artnet_led.ArtNet.Address.{PortAddress, address_eq}
use ha_artnet_led.ArtNet.Server.{
  ArtNetServer, NodeKey, Node, Event, port_address_eq, key_eq, key_beq, address_eq_iff,
}
use ha_artnet_led.ArtNet.Server.Replies.{Method}
use ha_artnet_led.ArtNet.Server.Sending.{or_empty}
use ha_artnet_led.ArtNet.Server.Nodes.{
  add_node_by_port_address, remove_node_by_port_address, show_mute, add_new, has_value,
}
use ha_artnet_led.ArtNet.Server.Frame.{NoLost, NoLost-append}
use ha_artnet_led.ArtNet.Server.Index.{
  listens, and_not-false, Adds, Removes, add_node_by_port_address-Adds,
  remove_node_by_port_address-Removes,
}

-- `key` is put into the sets of all addresses of a list, or taken out of them, and nothing else.
pub record AddsAll (xs : List PortAddress) (key : NodeKey) (s t : ArtNetServer) (es : List Event)
    : Type 0 where
  pub by_ip : t.nodes_by_ip ≡ s.nodes_by_ip
  pub into :
      (b : PortAddress) (l : NodeKey)
      → listens b l t ≡ ((member b xs && key_beq l key) || listens b l s)
  pub unique : Unique s.nodes_by_port_address → Unique t.nodes_by_port_address
  pub no_lost : NoLost es

pub record RemovesAll (xs : List PortAddress) (key : NodeKey) (s t : ArtNetServer) (es : List Event)
    : Type 0 where
  pub by_ip : t.nodes_by_ip ≡ s.nodes_by_ip
  pub out :
      (b : PortAddress) (l : NodeKey)
      → listens b l t ≡ (listens b l s && not (member b xs && key_beq l key))
  pub unique : Unique t.nodes_by_port_address
  pub no_lost : NoLost es

-- Each address of the list, with the key.
abbrev pub ListensAll : List PortAddress → NodeKey → ArtNetServer → Type 0
ListensAll xs key s = (x : PortAddress) → member x xs ≡ true → listens x key s ≡ true

pub eq_refl : (x : PortAddress) → address_eq x x ≡ true
eq_refl x = (address_eq_iff x x).1 refl

abbrev pub remove_each : NodeKey → PortAddress → Method (Unit {0})
remove_each key a = remove_node_by_port_address a key

still_listens :
    (x : PortAddress) (xs : List PortAddress) (key : NodeKey) (s t : ArtNetServer) (es : List Event)
    → Removes x key s t es
    → member x xs ≡ false
    → ListensAll (x ∷ xs) key s
    → ListensAll xs key t
still_listens x xs key s t es r new all y there = elim (Bool-cases (address_eq y x)) [
  | inl y_is_x ↦
      let e = (address_eq_iff y x).0 y_is_x in
      let no : true ≡ false = sym there ∙ ap (λ (a : PortAddress). member a xs) e ∙ new in cc
  | inr n ↦ r.out y key ∙ rw (n, all y (rw n there))
]

out_of_both : (p q m k : Bool) → ((p && not (q && k)) && not (m && k)) ≡ (p && not ((q || m) && k))
out_of_both false q m k = refl
out_of_both true true m true = refl
out_of_both true true m false = ground arith
out_of_both true false m k = refl

into_both : (p q m k : Bool) → ((m && k) || ((q && k) || p)) ≡ (((q || m) && k) || p)
into_both p true m true = ground arith
into_both p true m false = ground arith
into_both p false m k = refl

pub remove_all-RemovesAll :
    (xs : List PortAddress) (key : NodeKey) (s : ArtNetServer)
    → Distinct xs
    → Unique s.nodes_by_port_address
    → has_value key s.nodes_by_ip ≡ true
    → ListensAll xs key s
    → RemovesAll xs key s (each (remove_each key) xs s).after (each (remove_each key) xs s).events
      × ((each (remove_each key) xs s).result ≡ ok tt)
unfolding returns
remove_all-RemovesAll [] key s d u known all = (
  record { by_ip = refl; out = λ b l. and_not-false (listens b l s); unique = u; no_lost = tt },
  refl,
)
remove_all-RemovesAll (x ∷ xs) key s (new, d) u known all =
    let (r, returned) =
      remove_node_by_port_address-Removes x key s u known (all x (rw (eq_refl x))) in
    let t : ArtNetServer = (remove_node_by_port_address x key s).after in
    let (rest, done) =
      remove_all-RemovesAll xs key t d r.unique
        (subst (λ (m : Dict NodeKey Node). has_value key m ≡ true) (sym r.by_ip) known)
        (still_listens x xs key s t _ r new all) in
    rw (>>=-after (remove_each key x) (λ _. each (remove_each key) xs) s tt returned) (
      record {
        by_ip = rest.by_ip ∙ r.by_ip;
        out = λ b l.
            rest.out b l
            ∙ ap (λ (p : Bool). p && not (member b xs && key_beq l key)) (r.out b l)
            ∙ out_of_both (listens b l s) (address_eq b x) (member b xs) (key_beq l key);
        unique = rest.unique;
        no_lost =
            NoLost-append (remove_each key x s).events (each (remove_each key) xs t).events
              r.no_lost rest.no_lost;
      },
      done,
    )

show_mute-by_ip : (key : NodeKey) (s : ArtNetServer) → (show_mute key s).nodes_by_ip ≡ s.nodes_by_ip
show_mute-by_ip key s = ground arith

show_mute-by_port :
    (key : NodeKey) (s : ArtNetServer)
    → (show_mute key s).nodes_by_port_address ≡ s.nodes_by_port_address
show_mute-by_port key s = ground arith

-- One round of the loop over the new addresses, whether it returns or raises.
add_new-Adds :
    (now : ℕ) (key : NodeKey) (a : PortAddress) (s : ArtNetServer)
    → Adds a key s (add_new now key a s).after (add_new now key a s).events
unfolding add_new change
add_new-Adds now key a s =
    let call = add_node_by_port_address now a key in
    let d = add_node_by_port_address-Adds now a key s in
    let t : ArtNetServer = (call s).after in
    elim (Result-cases (call s).result) [
      | inr (x, e) ↦ rw (>>=-raised call (λ _. change (show_mute key)) s x e) d
      | inl (u, e) ↦ rw (>>=-after call (λ _. change (show_mute key)) s u e) (record {
        by_ip = show_mute-by_ip key t ∙ d.by_ip;
        into = λ b l.
            ap (λ m. member l (or_empty (lookup b m))) (show_mute-by_port key t) ∙ d.into b l;
        unique = λ v.
            subst (λ (m : Dict PortAddress (List NodeKey)). Unique m)
              (sym (show_mute-by_port key t)) (d.unique v);
        no_lost = NoLost-append (call s).events [] d.no_lost tt;
      })
    ]

-- The loop over the new addresses, where it returns.
pub add_all-AddsAll :
    (now : ℕ) (key : NodeKey) (xs : List PortAddress) (s : ArtNetServer)
    → (each (add_new now key) xs s).result ≡ ok tt
    → AddsAll xs key s (each (add_new now key) xs s).after (each (add_new now key) xs s).events
unfolding returns
add_all-AddsAll now key [] s h = record {
  by_ip = refl;
  into = λ b l. refl;
  unique = λ u. u;
  no_lost = tt;
}
add_all-AddsAll now key (x ∷ xs) s h =
    let (v, e, returned) = >>=-returned (add_new now key x) (λ _. each (add_new now key) xs) s h in
    let d = add_new-Adds now key x s in
    let t : ArtNetServer = (add_new now key x s).after in
    let rest = add_all-AddsAll now key xs t returned in
    rw (>>=-after (add_new now key x) (λ _. each (add_new now key) xs) s v e) (record {
      by_ip = rest.by_ip ∙ d.by_ip;
      into = λ b l.
          rest.into b l
          ∙ ap (λ (p : Bool). (member b xs && key_beq l key) || p) (d.into b l)
          ∙ into_both (listens b l s) (address_eq b x) (member b xs) (key_beq l key);
      unique = λ u. rest.unique (d.unique u);
      no_lost =
          NoLost-append (add_new now key x s).events (each (add_new now key) xs t).events d.no_lost
            rest.no_lost;
    })
