-- ===== src/Sacn/Receiver/Subscriptions.antt =====
-- The subscriptions of `SacnReceiver` (custom_components/dmx/server/sacn_server.py).
use ha_artnet_led.Base.{
  ℕ, ◌≡◌, refl, ap, not, ◌&&◌, ◌||◌, List, [], ◌∷◌, ◌++◌, leb, ◌==◌, ==_iff, arith, if◌then◌else◌,
}
use ha_artnet_led.Sacn.Packet.{get_multicast_address}
use ha_artnet_led.Sacn.Receiver.{
  SacnReceiver, Event, join, leave, member, remove_from, group, joins, connection_made,
  subscribe_universe, unsubscribe_universe,
}

member-append : (j : ℕ) (xs ys : List ℕ) → member j (xs ++ ys) ≡ (member j xs || member j ys)
member-append j [] ys = refl
member-append j (x ∷ xs) ys = ground (arith, member-append j xs ys)

member-remove_from :
    (j id : ℕ) (xs : List ℕ) → member j (remove_from id xs) ≡ (member j xs && not (j == id))
member-remove_from j id [] = refl
member-remove_from j id (x ∷ xs) =
    ground (arith, member-remove_from j id xs, ==_iff j id, ==_iff j x, ==_iff id x)

-- The groups of a list of universes, each the address that its packets are sent to.
abbrev pub joined : List ℕ → List Event
joined [] = []
joined (id ∷ ids) = join (get_multicast_address id) ∷ joined ids

joins-joined : (ids : List ℕ) → joins ids ≡ joined ids
unfolding get_multicast_address
joins-joined [] = refl
joins-joined (id ∷ ids) = ap (λ t. join (group id) ∷ t) (joins-joined ids)

-- Subscribing adds a universe from 1 to 63999 and no other, unsubscribing takes away the universe
-- and no other. With a connection, subscribing to a universe from 1 to 63999 joins the group that its
-- packets are sent to, also when the universe is subscribed already, and unsubscribing leaves the
-- group when the universe is subscribed; without a connection, and otherwise, they join and leave
-- nothing. A new connection joins the groups of all subscriptions.
pub subscriptions :
    (id j : ℕ) (r : SacnReceiver)
    → (member j (subscribe_universe id r).0.subscribed_universes
        ≡ (member j r.subscribed_universes || ((j == id) && (leb 1 id && leb id 63999))))
      × (member j (unsubscribe_universe id r).0.subscribed_universes
          ≡ (member j r.subscribed_universes && not (j == id)))
      × ((subscribe_universe id r).1 ≡ (
          if r.transport && (leb 1 id && leb id 63999)
          then join (get_multicast_address id) ∷ []
          else []))
      × ((unsubscribe_universe id r).1 ≡ (
          if r.transport && member id r.subscribed_universes
          then leave (get_multicast_address id) ∷ []
          else []))
      × ((connection_made r).1 ≡ joined r.subscribed_universes)
unfolding subscribe_universe unsubscribe_universe connection_made get_multicast_address
subscriptions id j r =
    let xs : List ℕ = r.subscribed_universes in
    (
      ground (arith, member-append j xs (id ∷ []), ==_iff j id),
      ground (arith, member-remove_from j id xs, ==_iff j id),
      ground arith,
      ground arith,
      joins-joined xs,
    )
