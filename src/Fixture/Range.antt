-- ===== src/Fixture/Range.antt =====
-- The bytes of a value of a channel's range, and back (custom_components/dmx/fixture/channel.py).
use ha_artnet_led.Base.{
  ℕ, zero, suc, ◌+◌, ◌-◌, ◌*◌, ◌/◌, ◌%◌, ◌<◌, ◌≤◌, ◌≡◌, refl, ap, ◌∙◌, subst, true, false, [], ◌∷◌,
  ◌++◌, ltb, leb, length, length-append, min, Bool-cases, arith, inl, inr,
}
use ha_artnet_led.Base.Result.{ok, ◌>>=◌}
use ha_artnet_led.Base.Bytes.{Bytes}
use ha_artnet_led.Fixture.Channel.{
  shift_left, shift_right, size_of, from_bytes, big_bytes, to_bytes, scaled, combined_for,
  dmx_bytes_to_range_value, range_value_to_dmx_bytes,
}

shift_right-shift_left : (k v : ℕ) → shift_right k (shift_left k v) ≡ v
unfolding shift_right shift_left
shift_right-shift_left zero v = refl
shift_right-shift_left (suc k) v =
    let e : shift_left k v * 256 / 256 ≡ shift_left k v = omega arith in
    ap (shift_right k) e ∙ shift_right-shift_left k v

shift_left-add : (k a b : ℕ) → shift_left k (a + b) ≡ shift_left k a + shift_left k b
unfolding shift_left
shift_left-add zero a b = refl
shift_left-add (suc k) a b = omega (arith, shift_left-add k a b)

shift_left_mono : (k a b : ℕ) → a ≤ b → shift_left k a ≤ shift_left k b
unfolding shift_left
shift_left_mono zero a b h = h
shift_left_mono (suc k) a b h = omega (arith, shift_left_mono k a b h)

shift_left-shift_left : (k n v : ℕ) → shift_left k (shift_left n v) ≡ shift_left (n + k) v
unfolding shift_left
shift_left-shift_left zero n v = let e : n + 0 ≡ n = omega arith in rw e
shift_left-shift_left (suc k) n v =
    let e : n + suc k ≡ suc (n + k) = omega arith in
    rw e (ap (λ (x : ℕ). x * 256) (shift_left-shift_left k n v))

-- What is lost below `k` bytes.
floor :
    (k x : ℕ)
    → (shift_left k (shift_right k x) ≤ x) × (x < shift_left k (shift_right k x) + size_of k)
unfolding shift_left shift_right
floor zero x = (omega arith, omega arith)
floor (suc k) x =
    let (low, high) = floor k (x / 256) in (omega (arith, low, high), omega (arith, low, high))

length-big_bytes : (n v : ℕ) → length (big_bytes n v) ≡ n
unfolding big_bytes
length-big_bytes zero v = refl
length-big_bytes (suc n) v =
    omega
      (arith, length-append (big_bytes n (v / 256)) (v % 256 ∷ []), length-big_bytes n (v / 256))

from_bytes-append :
    (acc b : ℕ) (bs : Bytes)
    → b < 256
    → from_bytes acc (bs ++ (b ∷ [])) ≡ (from_bytes acc bs >>= λ v. ok (v * 256 + b))
unfolding from_bytes
from_bytes-append acc b [] h = let e : leb 256 b ≡ false = ground arith in rw e
from_bytes-append acc b (x ∷ xs) h = elim (Bool-cases (leb 256 x)) [
  | inl y ↦ rw y
  | inr n ↦ rw n (from_bytes-append (acc * 256 + x) b xs h)
]

from_bytes-big_bytes : (n v : ℕ) → v < size_of n → from_bytes 0 (big_bytes n v) ≡ ok v
unfolding from_bytes big_bytes shift_left
from_bytes-big_bytes zero v h = let e : v ≡ 0 = omega arith in rw e
from_bytes-big_bytes (suc n) v h =
    let e : v / 256 * 256 + v % 256 ≡ v = omega arith in
    rw
      (
        from_bytes-append 0 (v % 256) (big_bytes n (v / 256)) (omega arith),
        from_bytes-big_bytes n (v / 256) (omega arith),
      )
      (ap ok e)

-- What is written and read again.
read_back :
    (value n r : ℕ)
    → combined_for value n r < size_of n
    → (range_value_to_dmx_bytes value n r >>= λ bs. dmx_bytes_to_range_value bs r)
      ≡ ok (scaled n r (combined_for value n r))
unfolding range_value_to_dmx_bytes to_bytes dmx_bytes_to_range_value
read_back value n r h =
    let fits : leb (size_of n) (combined_for value n r) ≡ false = ground arith in
    rw (
      fits,
      from_bytes-big_bytes n (combined_for value n r) h,
      length-big_bytes n (combined_for value n r),
    )

shift_left-fits : (k r v : ℕ) → v < size_of r → shift_left k v < size_of (r + k)
unfolding shift_left
shift_left-fits zero r v h = let e : r + 0 ≡ r = omega arith in rw e h
shift_left-fits (suc k) r v h =
    let e : r + suc k ≡ suc (r + k) = omega arith in rw e (omega (arith, shift_left-fits k r v h))

wide-back : (value n r : ℕ) → r ≤ n → scaled n r (shift_left (n - r) value) ≡ value
unfolding shift_left
wide-back value n r enough = elim (Bool-cases (ltb r n)) [
  | inl y ↦ rw y (shift_right-shift_left (n - r) value)
  | inr over_it ↦
      let equal : n ≡ r = ground arith in
      let none_up : r - n ≡ 0 = omega (arith, equal) in
      let none_down : n - r ≡ 0 = omega (arith, equal) in rw (over_it, none_up, none_down)
]

-- With at least the bytes of its range, a value that fits the range is read back from the bytes that
-- range_value_to_dmx_bytes gives for it, and neither call raises.
pub range_value-dmx_bytes :
    (value num_bytes range_bytes : ℕ)
    → value < size_of range_bytes
    → range_bytes ≤ num_bytes
    → (range_value_to_dmx_bytes value num_bytes range_bytes >>= λ bs.
        dmx_bytes_to_range_value bs range_bytes)
      ≡ ok value
range_value-dmx_bytes value n r fits enough =
    let same : r + (n - r) ≡ n = omega arith in
    let branch : leb r n ≡ true = ground arith in
    let low : shift_left (n - r) value < size_of n =
      subst (λ (x : ℕ). shift_left (n - r) value < size_of x) same
        (shift_left-fits (n - r) r value fits) in
    read_back value n r (rw branch low) ∙ rw branch (ap ok (wide-back value n r enough))

size_of-pos : (k : ℕ) → 1 ≤ size_of k
unfolding shift_left
size_of-pos zero = omega arith
size_of-pos (suc k) = omega (arith, size_of-pos k)

round_up-fits :
    (k n value : ℕ)
    → value ≤ shift_left k (size_of n - 1)
    → shift_right k (value + size_of k - 1) ≤ size_of n - 1
round_up-fits k n value low =
    elim (Bool-cases (leb (shift_right k (value + size_of k - 1)) (size_of n - 1))) [
      | inl y ↦ ground arith
      | inr over_it ↦
          let above : size_of n ≤ shift_right k (value + size_of k - 1) = ground arith in
          let up = shift_left_mono k (size_of n) _ above in
          let one : 1 ≤ size_of n = size_of-pos n in
          let pos : 1 ≤ size_of k = size_of-pos k in
          let (under, over) = floor k (value + size_of k - 1) in
          let split : size_of n ≡ (size_of n - 1) + 1 = omega (arith, one) in
          let whole : shift_left k (size_of n) ≡ shift_left k (size_of n - 1) + size_of k =
            ap (shift_left k) split ∙ shift_left-add k (size_of n - 1) 1 in
          absurd (omega (arith, up, under, whole, low, pos))
    ]

-- With fewer bytes than the range has, and a value that is not above the last one that these bytes
-- can express, what is read back from the bytes of range_value_to_dmx_bytes is the value rounded up:
-- not below the value, and less than one step of the bytes that are left above it. Neither call
-- raises.
pub range_value-dmx_bytes_up :
    (value num_bytes range_bytes : ℕ)
    → num_bytes < range_bytes
    → value ≤ shift_left (range_bytes - num_bytes) (size_of num_bytes - 1)
    → (seen : ℕ) × ((range_value_to_dmx_bytes value num_bytes range_bytes >>= λ bs.
          dmx_bytes_to_range_value bs range_bytes)
        ≡ ok seen)
      × (value ≤ seen)
      × (seen < value + size_of (range_bytes - num_bytes))
range_value-dmx_bytes_up value n r few low =
    let k : ℕ = r - n in
    let branch : leb r n ≡ false = ground arith in
    let back : ltb r n ≡ false = ground arith in
    let fits = round_up-fits k n value low in
    let one : 1 ≤ size_of n = size_of-pos n in
    let least : min (shift_right k (value + size_of k - 1)) (size_of n - 1)
        ≡ shift_right k (value + size_of k - 1) =
      omega (arith, fits) in
    let bound : shift_right k (value + size_of k - 1) < size_of n = omega (arith, fits, one) in
    let (under, over) = floor k (value + size_of k - 1) in
    let pos : 1 ≤ size_of k = size_of-pos k in
    (
      shift_left k (shift_right k (value + size_of k - 1)),
      read_back value n r (rw (branch, least) bound) ∙ rw (branch, back, least),
      omega (arith, under, over, pos),
      omega (arith, under, over, pos),
    )
