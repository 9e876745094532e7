-- ===== src/Sacn/Server/Invariant.antt =====
-- What holds of `SacnServer` after any steps, of custom_components/dmx/server/sacn_server.py.
use ha_artnet_led.Base.{
  ℕ, zero, suc, ◌≤◌, ◌<◌, ◌≡◌, ◌⊎◌, refl, subst, Bool, true, false, ◌&&◌, List, [], ◌∷◌, ◌++◌,
  Option, some, none, length, get_elem?, set, leb, ◌==◌, if◌then◌else◌, arith, length-append,
  length-set, inl, inr, Bool-cases, Option-cases,
}
use ha_artnet_led.Base.Result.{ok, Result-cases}
use ha_artnet_led.Base.Bytes.{Bytes}
use ha_artnet_led.Base.Text.{Text}
use ha_artnet_led.Base.Dict.{Dict, nat_eq, lookup, contains, insert, erase}
use ha_artnet_led.Sacn.Server.{
  SacnServerConfig, SacnServer, UniverseState, new_state, Host, increment_sequence, find,
  update_state, Step, Event, add_universe, start_server, parse_hosts,
}
use ha_artnet_led.Sacn.Server.Send.{
  packet_bytes, terminating, last_or_zeros, send_dmx_data, finish_pending, terminate_universe,
  remove_universe, stop_server, terminate_all, keys, sent_state,
}
use ha_artnet_led.Sacn.Server.Tasks.{
  Move, start, add, send, begin, finish, round, finish_send, end, terminate, remove, stop, Moves,
  rest, then_move, finish_round, end_stream,
}

-- Every universe has a number that sACN allows, and its object is in the store.
abbrev pub IsPlaced : ℕ → Dict ℕ ℕ → Type 0
IsPlaced n [] = Unit
IsPlaced n ((id, r) ∷ d) = (1 ≤ id) × (id ≤ 63999) × (r < n) × IsPlaced n d

-- Every sequence number is a byte.
abbrev pub IsSequenced : List UniverseState → Type 0
IsSequenced [] = Unit
IsSequenced (st ∷ sts) = (st.sequence_number ≤ 255) × IsSequenced sts

abbrev pub IsWell : SacnServer → Type 0
IsWell s = IsPlaced (length s.store) s.universes × IsSequenced s.store

IsPlaced-mono : (m n : ℕ) (d : Dict ℕ ℕ) → m ≤ n → IsPlaced m d → IsPlaced n d
IsPlaced-mono m n [] h p = tt
IsPlaced-mono m n ((id, r) ∷ d) h (a, b, c, p) =
    (a, b, omega (arith, c, h), IsPlaced-mono m n d h p)

insert-IsPlaced :
    (n id r : ℕ) (d : Dict ℕ ℕ)
    → 1 ≤ id
    → id ≤ 63999
    → r < n
    → IsPlaced n d
    → IsPlaced n (insert id r d)
insert-IsPlaced n id r [] a b c p = (a, b, c, tt)
insert-IsPlaced n id r ((j, q) ∷ d) a b c (x, y, z, p) = elim (Bool-cases (id == j)) [
  | inl e ↦ rw e (x, y, c, p)
  | inr e ↦ rw e (x, y, z, insert-IsPlaced n id r d a b c p)
]

erase-IsPlaced : (n id : ℕ) (d : Dict ℕ ℕ) → IsPlaced n d → IsPlaced n (erase id d)
erase-IsPlaced n id [] p = tt
erase-IsPlaced n id ((j, q) ∷ d) (x, y, z, p) = elim (Bool-cases (id == j)) [
  | inl e ↦ rw e p
  | inr e ↦ rw e (x, y, z, erase-IsPlaced n id d p)
]

lookup-IsPlaced :
    (n id r : ℕ) (d : Dict ℕ ℕ)
    → IsPlaced n d
    → lookup id d ≡ some r
    → (1 ≤ id) × (id ≤ 63999) × (r < n)
lookup-IsPlaced n id r [] p h = absurd (ground arith)
lookup-IsPlaced n id r ((j, q) ∷ d) (x, y, z, p) h = elim (Bool-cases (id == j)) [
  | inl e ↦ (ground (arith, x), ground (arith, y), ground (arith, z))
  | inr e ↦ lookup-IsPlaced n id r d p (ground arith)
]

set-IsSequenced :
    (sts : List UniverseState) (r : ℕ) (st : UniverseState)
    → st.sequence_number ≤ 255
    → IsSequenced sts
    → IsSequenced (set sts r st)
set-IsSequenced [] r st h p = tt
set-IsSequenced (x ∷ sts) zero st h (a, p) = (h, p)
set-IsSequenced (x ∷ sts) (suc r) st h (a, p) = (a, set-IsSequenced sts r st h p)

append-IsSequenced :
    (sts : List UniverseState) (st : UniverseState)
    → st.sequence_number ≤ 255
    → IsSequenced sts
    → IsSequenced (sts ++ (st ∷ []))
append-IsSequenced [] st h p = (h, tt)
append-IsSequenced (x ∷ sts) st h (a, p) = (a, append-IsSequenced sts st h p)

get-IsSequenced :
    (sts : List UniverseState) (r : ℕ) (st : UniverseState)
    → IsSequenced sts
    → get_elem? sts r ≡ some st
    → st.sequence_number ≤ 255
get-IsSequenced [] r st p h = absurd (ground arith)
get-IsSequenced (x ∷ sts) zero st (a, p) h = ground (arith, a)
get-IsSequenced (x ∷ sts) (suc r) st (a, p) h = get-IsSequenced sts r st p h

update_state-IsWell :
    (r : ℕ) (st : UniverseState) (s : SacnServer)
    → st.sequence_number ≤ 255
    → IsWell s
    → IsWell (update_state r st s)
update_state-IsWell r st s h (p, q) =
    (rw (length-set s.store r st) p, set-IsSequenced s.store r st h q)

either_branch :
    {A : Type 0} (P : A → Type 0) (c : Bool) (a b : A) → P a → P b → P (if c then a else b)
either_branch P true a b p q = p
either_branch P false a b p q = q

-- A universe is not there, or it has an object in the store.
pub find-cases :
    (id : ℕ) (s : SacnServer)
    → (find id s ≡ none)
      ⊎ ((r : ℕ) × (st : UniverseState) × (find id s ≡ some (r, st))
          × (get_elem? s.store r ≡ some st))
find-cases id s = elim (Option-cases (lookup id s.universes)) [
  | inl n ↦ inl (rw (find, n) refl)
  | inr (r, e) ↦ elim (Option-cases (get_elem? s.store r)) [
    | inl n ↦ inl (rw (find, e, n) refl)
    | inr (st, g) ↦ inr (r, st, rw (find, e, g) refl, g)
  ]
]

send_dmx_data-IsWell :
    (now id : ℕ) (d : Bytes) (s : SacnServer) → IsWell s → IsWell (send_dmx_data now id d s).after
unfolding send_dmx_data
send_dmx_data-IsWell now id d s w = elim (find-cases id s) [
  | inl n ↦ either_branch (λ (t : Step Bool). IsWell t.after) s.running _ _ (rw n w) w
  | inr (r, st, e, g) ↦
      either_branch (λ (t : Step Bool). IsWell t.after) s.running _ _
        (rw e (update_state-IsWell r _ s (get-IsSequenced s.store r st w.1 g) w)) w
]

finish_pending-IsWell :
    (now : ℕ) (r : Option ℕ) (s : SacnServer) → IsWell s → IsWell (finish_pending now r s)
unfolding finish_pending increment_sequence
finish_pending-IsWell now none s w = w
finish_pending-IsWell now (some r) s w = elim (Option-cases (get_elem? s.store r)) [
  | inl n ↦ rw (finish_pending, n) w
  | inr (st, g) ↦
      rw (finish_pending, g) (update_state-IsWell r (sent_state now st) s (ground arith) w)
]

finish_round-IsWell : (now r : ℕ) (s : SacnServer) → IsWell s → IsWell (finish_round now r s)
unfolding finish_round increment_sequence
finish_round-IsWell now r s w = elim (Option-cases (get_elem? s.store r)) [
  | inl n ↦ rw (finish_round, n) w
  | inr (st, g) ↦ rw (finish_round, g) (update_state-IsWell r _ s (ground arith) w)
]

end_stream-IsWell : (r : ℕ) (s : SacnServer) → IsWell s → IsWell (end_stream r s)
unfolding end_stream
end_stream-IsWell r s w = elim (Option-cases (get_elem? s.store r)) [
  | inl n ↦ rw (end_stream, n) w
  | inr (st, g) ↦
      rw (end_stream, g) (update_state-IsWell r _ s (get-IsSequenced s.store r st w.1 g) w)
]

terminate_universe-IsWell :
    (config : SacnServerConfig) (id : ℕ) (s : SacnServer)
    → IsWell s
    → IsWell (terminate_universe config id s).after
unfolding terminate_universe
terminate_universe-IsWell config id s w = elim (find-cases id s) [
  | inl n ↦ rw (terminate_universe, n) w
  | inr (r, st, e, g) ↦
      let low = get-IsSequenced s.store r st w.1 g in
      elim (Result-cases (packet_bytes config id st terminating (last_or_zeros st.last_data))) [
        | inl (b, p) ↦
            rw (terminate_universe, e, p)
              (either_branch (λ (t : Step (Unit {0})). IsWell t.after) st.termination_sent _ _ w
                (update_state-IsWell r _ s low w))
        | inr (x, p) ↦
            rw (terminate_universe, e, p)
              (either_branch (λ (t : Step (Unit {0})). IsWell t.after) st.termination_sent _ _ w
                (update_state-IsWell r _ s low w))
      ]
]

remove_universe-IsWell :
    (config : SacnServerConfig) (id : ℕ) (s : SacnServer)
    → IsWell s
    → IsWell (remove_universe config id s).after
unfolding remove_universe
remove_universe-IsWell config id s w = elim (Bool-cases (contains id s.universes)) [
  | inl y ↦
      let (p, q) = terminate_universe-IsWell config id s w in rw y (erase-IsPlaced _ id _ p, q)
  | inr n ↦ rw n w
]

terminate_all-IsWell :
    (config : SacnServerConfig) (ids : List ℕ) (s : SacnServer)
    → IsWell s
    → IsWell (terminate_all config ids s).after
unfolding terminate_all
terminate_all-IsWell config [] s w = w
terminate_all-IsWell config (id ∷ ids) s w =
    terminate_all-IsWell config ids _ (terminate_universe-IsWell config id s w)

stop_server-IsWell :
    (config : SacnServerConfig) (s : SacnServer) → IsWell s → IsWell (stop_server config s).after
unfolding stop_server
stop_server-IsWell config s w =
    either_branch (λ (t : Step (Unit {0})). IsWell t.after) s.running _ _
      (terminate_all-IsWell config (keys s.universes) s w) w

added_IsWell :
    (id : ℕ) (hosts : List Host) (s : SacnServer)
    → (leb 1 id && leb id 63999) ≡ true
    → IsWell s
    → IsWell (record s {
      store = s.store ++ (new_state hosts ∷ []);
      universes = insert id (length s.store) s.universes;
    })
added_IsWell id hosts s y (p, q) =
    let l = length-append s.store (new_state hosts ∷ []) in
    (
      insert-IsPlaced _ id (length s.store) s.universes (ground arith) (ground arith)
          (omega (arith, l)) (IsPlaced-mono (length s.store) _ s.universes (omega (arith, l)) p),
      append-IsSequenced s.store (new_state hosts) (omega arith) q,
    )

start_server-IsWell : (s : SacnServer) → IsWell s → IsWell (start_server s)
unfolding start_server
start_server-IsWell s w = either_branch IsWell s.running _ _ w w

add_universe-IsWell :
    (id : ℕ) (addrs : List Text) (s : SacnServer) (t : Step Bool)
    → IsWell s
    → add_universe id addrs s ≡ ok t
    → IsWell t.after
unfolding add_universe
add_universe-IsWell id addrs s t (p, q) h = elim (Bool-cases (leb 1 id && leb id 63999)) [
  | inr n ↦ (let same : s ≡ t.after = ground (arith, h, n) in subst IsWell same (p, q))
  | inl y ↦ elim (Bool-cases (contains id s.universes)) [
    | inl old ↦ (let same : s ≡ t.after = ground (arith, h, y, old) in subst IsWell same (p, q))
    | inr new ↦ elim (Result-cases (parse_hosts addrs)) [
      | inr (x, e) ↦ absurd (ground (arith, h, y, new, e))
      | inl (hosts, e) ↦
          let w : SacnServer = record s {
            store = s.store ++ (new_state hosts ∷ []);
            universes = insert id (length s.store) s.universes;
          } in
          let same : w ≡ t.after = ground (arith, h, y, new, e) in
          subst IsWell same (added_IsWell id hosts s y (p, q))
    ]
  ]
]

Move-IsWell :
    (config : SacnServerConfig) {s t : SacnServer} {es : List Event}
    → Move config s es t
    → IsWell s
    → IsWell t
Move-IsWell config (start s) w = start_server-IsWell s w
Move-IsWell config (add id addrs s t e) w = add_universe-IsWell id addrs s t w e
Move-IsWell config (send now id d s) w = send_dmx_data-IsWell now id d s w
Move-IsWell config (begin id s) w = w
Move-IsWell config (finish now r s) w = finish_pending-IsWell now r s w
Move-IsWell config (round now id r s sends e) w = w
Move-IsWell config (finish_send now r s) w = finish_round-IsWell now r s w
Move-IsWell config (end r s) w = end_stream-IsWell r s w
Move-IsWell config (terminate id s) w = terminate_universe-IsWell config id s w
Move-IsWell config (remove id s) w = remove_universe-IsWell config id s w
Move-IsWell config (stop s) w = stop_server-IsWell config s w

-- Whatever calls are made, and however the coroutines of sends and of streams interleave with them,
-- the server keeps its universes numbered from 1 to 63999, each with an object in the store, and
-- every object's sequence number in a byte, from a state in which this holds.
pub Moves-IsWell :
    (config : SacnServerConfig) {s t : SacnServer} → Moves config s t → IsWell s → IsWell t
Moves-IsWell config (rest s) w = w
Moves-IsWell config (then_move ms m) w = Move-IsWell config m (Moves-IsWell config ms w)
