-- ===== src/Universe/Output.antt =====
-- The frame that `send_universe_data` hands to the two protocols, of custom_components/dmx/io/dmx_io.py.
use ha_artnet_led.Base.{
  ℕ, zero, suc, ◌+◌, ◌-◌, ◌≤◌, ◌<◌, ◌≡◌, inl, inr, refl, ap, ◌∙◌, sym, subst, Bool, true, false,
  ◌&&◌, [], ◌∷◌, ◌++◌, List, Option, some, none, ==_iff, ◌==◌, if◌then◌else◌, leb, ltb, arith,
  Bool-cases, length, replicate, get_elem?, set, length-set, length-replicate,
}
use ha_artnet_led.Base.Result.{ok}
use ha_artnet_led.Base.Bytes.{Bytes}
use ha_artnet_led.Base.Dict.{Dict, nat_eq, lookup, insert, Unique, insert-Unique}
use ha_artnet_led.ArtNet.Address.{PortAddress}
use ha_artnet_led.Universe.State.{Universe, Event, controller_send, sacn_send}
use ha_artnet_led.Universe.Send.{
  Done, restore_constants, send_universe_data, send_values, send_events, sacn_frame, frame_length,
  write_frame, write_byte, sacn_of, each, get_channel_value,
}

-- The values of a dict are bytes.
abbrev pub IsByteDict : Dict ℕ ℕ → Type 0
IsByteDict [] = Unit
IsByteDict ((ch, v) ∷ d) = (v < 256) × IsByteDict d

insert-IsByteDict : (ch v : ℕ) (d : Dict ℕ ℕ) → v < 256 → IsByteDict d → IsByteDict (insert ch v d)
insert-IsByteDict ch v [] b h = (b, tt)
insert-IsByteDict ch v ((j, w) ∷ d) b (c, h) = elim (Bool-cases (ch == j)) [
  | inl y ↦ rw y (b, h)
  | inr n ↦ rw n (c, insert-IsByteDict ch v d b h)
]

restore_constants-IsByteDict :
    (cs d : Dict ℕ ℕ) → IsByteDict cs → IsByteDict d → IsByteDict (restore_constants cs d)
unfolding restore_constants
restore_constants-IsByteDict [] d hc h = h
restore_constants-IsByteDict ((ch, v) ∷ cs) d (b, hc) h =
    let same : Bool = elim (lookup ch d) [ none ↦ false | some w ↦ w == v ] in
    elim (Bool-cases same) [
      | inl y ↦ rw y (restore_constants-IsByteDict cs d hc h)
      | inr n ↦
          rw n (restore_constants-IsByteDict cs (insert ch v d) hc (insert-IsByteDict ch v d b h))
    ]

restore_constants-Unique : (cs d : Dict ℕ ℕ) → Unique d → Unique (restore_constants cs d)
unfolding restore_constants
restore_constants-Unique [] d h = h
restore_constants-Unique ((ch, v) ∷ cs) d h =
    let same : Bool = elim (lookup ch d) [ none ↦ false | some w ↦ w == v ] in
    elim (Bool-cases same) [
      | inl y ↦ rw y (restore_constants-Unique cs d h)
      | inr n ↦ rw n (restore_constants-Unique cs (insert ch v d) (insert-Unique ch v d h))
    ]

-- The byte at an index after a dict is written over bytes.
abbrev pub written : Option ℕ → Option ℕ → Option ℕ
written none old = old
written (some v) none = none
written (some v) (some old) = some v

abbrev IsWritten : Dict ℕ ℕ → Bytes → Bytes → Type 0
IsWritten d old new =
    (write_frame d old ≡ ok new)
    × (length new ≡ length old)
    × ((i : ℕ) → get_elem? new i ≡ written (lookup (i + 1) d) (get_elem? old i))

get_elem?-set :
    (xs : Bytes) (k v i : ℕ)
    → get_elem? (set xs k v) i
      ≡ (if i == k then written (some v) (get_elem? xs i) else get_elem? xs i)
get_elem?-set [] k v i = ground arith
get_elem?-set (x ∷ xs) zero v zero = refl
get_elem?-set (x ∷ xs) zero v (suc i) = ground arith
get_elem?-set (x ∷ xs) (suc k) v zero = ground arith
get_elem?-set (x ∷ xs) (suc k) v (suc i) = ground (arith, get_elem?-set xs k v i)

get_elem?-none : (xs : Bytes) (i : ℕ) → length xs ≤ i → get_elem? xs i ≡ none
get_elem?-none [] i h = refl
get_elem?-none (x ∷ xs) zero h = absurd (ground arith)
get_elem?-none (x ∷ xs) (suc i) h = get_elem?-none xs i (ground arith)

write_byte_at :
    (ch v : ℕ) (old : Bytes)
    → v < 256
    → (new : Bytes) × (write_byte ch v old ≡ ok new)
      × (length new ≡ length old)
      × ((i : ℕ)
          → get_elem? new i
            ≡ (if (i + 1) == ch then written (some v) (get_elem? old i) else get_elem? old i))
write_byte_at ch v old b = elim (Bool-cases (leb 1 ch && leb ch (length old))) [
  | inl y ↦ (
    set old (ch - 1) v,
    ground arith,
    length-set old (ch - 1) v,
    λ i. ground (arith, get_elem?-set old (ch - 1) v i),
  )
  | inr n ↦ (old, ground arith, refl, λ i. ground (arith, get_elem?-none old i))
]

write_frame-IsWritten :
    (d : Dict ℕ ℕ) (old : Bytes) → IsByteDict d → Unique d → (new : Bytes) × IsWritten d old new
unfolding write_frame
write_frame-IsWritten [] old h n = (old, (refl, refl, λ i. refl))
write_frame-IsWritten ((ch, v) ∷ d) old (b, h) (new, n) =
    let (mid, e, l, at) = write_byte_at ch v old b in
    let (last, (e', l', at')) = write_frame-IsWritten d mid h n in
    (last, (rw e e', l' ∙ l, λ i. ground (arith, at i, at' i, new, ==_iff (i + 1) ch)))

get_elem?-replicate : (n a i : ℕ) → get_elem? (replicate n a) i ≡ (if ltb i n then some a else none)
get_elem?-replicate zero a i = ground arith
get_elem?-replicate (suc n) a zero = ground arith
get_elem?-replicate (suc n) a (suc i) = ground (arith, get_elem?-replicate n a i)

get_elem?-append :
    (xs ys : Bytes) (i : ℕ)
    → get_elem? (xs ++ ys) i
      ≡ (if ltb i (length xs) then get_elem? xs i else get_elem? ys (i - length xs))
get_elem?-append [] ys i = ground arith
get_elem?-append (x ∷ xs) ys zero = ground arith
get_elem?-append (x ∷ xs) ys (suc i) = ground (arith, get_elem?-append xs ys i)

-- The byte of an sACN frame at an index, for the channels that it carries.
abbrev pub framed_at : Bytes → ℕ → Option ℕ
framed_at bytes zero = some 0
framed_at bytes (suc i) =
    if ltb i (length bytes) then get_elem? bytes i else (if ltb i 24 then some 0 else none)

get_elem?-sacn_frame : (bytes : Bytes) (i : ℕ) → get_elem? (sacn_frame bytes) i ≡ framed_at bytes i
unfolding sacn_frame
get_elem?-sacn_frame bytes zero = refl
get_elem?-sacn_frame bytes (suc i) =
    let pad : ℕ = 25 - suc (length bytes) in
    ground (
      arith,
      get_elem?-append bytes (replicate pad 0) i,
      get_elem?-replicate pad 0 (i - length bytes),
    )

-- The length of the frame: a universe with no channel at all sends two bytes.
abbrev pub output_length : Bool → Dict ℕ ℕ → ℕ
output_length partial [] = 2
output_length partial (e ∷ d) = frame_length partial (e ∷ d)

-- The calls that a frame makes: with the Art-Net controller its bytes at the universe's address, and
-- with an sACN universe other than 0 the sACN frame under that number.
abbrev pub handed : Bool → Option ℕ → PortAddress → Bytes → Bytes → List Event
handed true none address bytes sacn_bytes = controller_send address bytes ∷ []
handed true (some zero) address bytes sacn_bytes = controller_send address bytes ∷ []
handed true (some (suc n)) address bytes sacn_bytes =
    controller_send address bytes ∷ sacn_send (suc n) sacn_bytes ∷ []
handed false none address bytes sacn_bytes = []
handed false (some zero) address bytes sacn_bytes = []
handed false (some (suc n)) address bytes sacn_bytes = sacn_send (suc n) sacn_bytes ∷ []

handed-eq :
    (c : Bool) (o : Option ℕ) (address : PortAddress) (bytes sacn_bytes : Bytes)
    → (if c then controller_send address bytes ∷ [] else [])
        ++ each (sacn_of o) (λ n. sacn_send n sacn_bytes)
      ≡ handed c o address bytes sacn_bytes
handed-eq true none a b s = refl
handed-eq true (some zero) a b s = refl
handed-eq true (some (suc n)) a b s = refl
handed-eq false none a b s = refl
handed-eq false (some zero) a b s = refl
handed-eq false (some (suc n)) a b s = refl

send_events-handed :
    (u : Universe) (bytes sacn_bytes : Bytes)
    → send_events u bytes sacn_bytes
      ≡ handed u.has_controller u.sacn_universe u.port_address bytes sacn_bytes
send_events-handed u bytes sacn_bytes =
    handed-eq u.has_controller u.sacn_universe u.port_address bytes sacn_bytes

-- What a send of the frame `bytes` looks like from outside: the calls with the frame of each
-- protocol, byte by byte.
abbrev pub IsSend : Universe → Bytes → Done → Type 0
IsSend u bytes d =
    (sacn_bytes : Bytes) × (d.events
      ≡ handed u.has_controller u.sacn_universe u.port_address bytes sacn_bytes)
    × (d.raised ≡ none)
    × ((i : ℕ) → get_elem? sacn_bytes i ≡ framed_at bytes i)
    × (length bytes ≡ output_length u.use_partial_universe d.after.channel_values)
    × ((i : ℕ)
        → get_elem? bytes i
          ≡ (if ltb i (length bytes) then some (get_channel_value (i + 1) d.after) else none))

send_values-IsSend :
    (u : Universe) (d : Dict ℕ ℕ)
    → u.channel_values ≡ d
    → IsByteDict d
    → Unique d
    → (bytes : Bytes) × IsSend u bytes (send_values u)
unfolding sacn_frame get_channel_value
send_values-IsSend u [] e b n = (
  replicate 2 0,
  (
    sacn_frame (replicate 2 0),
    rw e (send_events-handed u (replicate 2 0) (sacn_frame (replicate 2 0))),
    rw e refl,
    get_elem?-sacn_frame (replicate 2 0),
    rw e refl,
    λ i. rw e (ground (arith, get_elem?-replicate 2 0 i)),
  ),
)
send_values-IsSend u ((ch, v) ∷ d) e b n =
    let size : ℕ = frame_length u.use_partial_universe ((ch, v) ∷ d) in
    let (bytes, (w, l, at)) = write_frame-IsWritten ((ch, v) ∷ d) (replicate size 0) b n in
    let whole : length bytes ≡ size = l ∙ length-replicate size 0 in
    let sent : send_values u
        ≡ record { after = u; events = send_events u bytes (sacn_frame bytes); raised = none } =
      ground (arith, e, w) in
    (
      bytes,
      (
        sacn_frame bytes,
        ap (λ d. d.events) sent ∙ send_events-handed u bytes (sacn_frame bytes),
        ap (λ d. d.raised) sent,
        get_elem?-sacn_frame bytes,
        rw sent (rw e whole),
        λ i. rw sent (rw e (ground (arith, at i, get_elem?-replicate size 0 i, whole))),
      ),
    )

cond_on : (c : Bool) (a b : Done) → c ≡ true → (if c then a else b) ≡ a
cond_on c a b h = rw h refl

-- An enabled send of a universe whose values and constants are bytes, with no channel twice, raises
-- nothing. If the universe has an Art-Net controller, the controller gets the frame at the port
-- address; if it has an sACN universe other than 0, the sACN server gets the sACN frame under that
-- number; nothing else is called. Byte i of the frame is the value that channel i + 1 has after the
-- send; its length is 2 without any channel, otherwise that of `frame_length`. The sACN frame is the
-- start code 0, the same bytes and zeros up to 25 bytes.
pub send_universe_data-IsSend :
    (u : Universe)
    → u.output_enabled ≡ true
    → IsByteDict u.constant_values
    → IsByteDict u.channel_values
    → Unique u.channel_values
    → (bytes : Bytes) × IsSend u bytes (send_universe_data u)
unfolding send_universe_data
send_universe_data-IsSend u on hc h n =
    let d : Dict ℕ ℕ = restore_constants u.constant_values u.channel_values in
    let w : Universe = record u { channel_values = d } in
    let (bytes, sent) =
      send_values-IsSend w d refl
        (restore_constants-IsByteDict u.constant_values u.channel_values hc h)
        (restore_constants-Unique u.constant_values u.channel_values n) in
    let runs : send_universe_data u ≡ send_values w = cond_on u.output_enabled _ _ on in
    (bytes, subst (λ r. IsSend u bytes r) (sym runs) sent)
