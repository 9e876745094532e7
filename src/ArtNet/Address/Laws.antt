-- ===== src/ArtNet/Address/Laws.antt =====
-- A port address as a number of 17 bits: both directions, and the order.
use ha_artnet_led.Base.{
  ℕ, ◌+◌, ◌*◌, ◌/◌, ◌%◌, ◌≤◌, ◌≡◌, ap, ◌∙◌, arith, ltb, le→leb, bit_and, bit_or, bit_or_sum,
  bit_and_low,
}
use ha_artnet_led.Base.Result.{ok}
use ha_artnet_led.ArtNet.Address.{
  PortAddress, IsAddress, make_port_address, port_address, set_port_address, parse, address_lt,
}

pub low_4 : (v : ℕ) → bit_and v 0xF ≡ v % 16
low_4 v =
    let e : v ≡ v / 16 * 16 + v % 16 = omega arith in
    ap (λ (t : ℕ). bit_and t 0xF) e ∙ bit_and_low 4 (v / 16) (v % 16) (omega arith)

pub low_8 : (v : ℕ) → bit_and v 0xFF ≡ v % 256
low_8 v =
    let e : v ≡ v / 256 * 256 + v % 256 = omega arith in
    ap (λ (t : ℕ). bit_and t 0xFF) e ∙ bit_and_low 8 (v / 256) (v % 256) (omega arith)

pub low_9 : (v : ℕ) → bit_and v 0x1FF ≡ v % 512
low_9 v =
    let e : v ≡ v / 512 * 512 + v % 512 = omega arith in
    ap (λ (t : ℕ). bit_and t 0x1FF) e ∙ bit_and_low 9 (v / 512) (v % 512) (omega arith)

-- The three fields as a sum.
pub port_address-sum :
    (p : PortAddress) → IsAddress p → port_address p ≡ p.net * 8192 + p.sub_net * 512 + p.universe
unfolding port_address
port_address-sum p h =
    let s : bit_or (p.net * 8192) (p.sub_net * 512) ≡ (p.net * 16 + p.sub_net) * 512 =
      bit_or_sum 13 p.net (p.sub_net * 512) (omega arith) ∙ omega arith in
    rw s (bit_or_sum 9 (p.net * 16 + p.sub_net) p.universe (omega arith) ∙ omega arith)

-- The setter on any number: the universe is the low nine bits, then four bits each.
pub set_port_address-fields :
    (v : ℕ)
    → set_port_address v
      ≡ record { net = v / 8192 % 16; sub_net = v / 512 % 16; universe = v % 512 }
unfolding set_port_address
set_port_address-fields v = rw (low_4 (v / 8192), low_4 (v / 512), low_9 v)

pub set_port_address-IsAddress : (v : ℕ) → IsAddress (set_port_address v)
set_port_address-IsAddress v = rw (set_port_address-fields v) (omega arith)

-- `parse` and the setter read back the number of every port address that the constructor accepts.
pub parse-port_address :
    (p : PortAddress)
    → IsAddress p
    → (set_port_address (port_address p) ≡ p) × (parse (port_address p) ≡ ok p)
unfolding parse make_port_address
parse-port_address p h =
    let s = port_address-sum p h in
    let n : bit_and (port_address p / 8192) 0xF ≡ p.net = low_4 _ ∙ omega (arith, s) in
    let b : bit_and (port_address p / 512) 0xF ≡ p.sub_net = low_4 _ ∙ omega (arith, s) in
    let u : bit_and (port_address p) 0x1FF ≡ p.universe = low_9 _ ∙ omega (arith, s) in
    (
      unfold set_port_address in rw (n, b, u),
      rw (n, b, u, le→leb p.net 15 (omega arith), le→leb p.sub_net 15 (omega arith))
          (rw (le→leb p.universe 511 (omega arith))),
    )

-- The number of what `parse` returns is the low 17 bits of the number given, and no number is
-- refused.
pub port_address-parse :
    (v : ℕ) → (p : PortAddress) × (parse v ≡ ok p) × (port_address p ≡ v % 131072)
port_address-parse v =
    let net : v / 8192 % 16 ≤ 15 = omega arith in
    let sub : v / 512 % 16 ≤ 15 = omega arith in
    let uni : v % 512 ≤ 511 = omega arith in
    (
      set_port_address v,
      unfold parse make_port_address set_port_address in
          rw (low_4 (v / 8192), low_4 (v / 512), low_9 v)
            (rw (le→leb _ _ net, le→leb _ _ sub, le→leb _ _ uni)),
      port_address-sum _ (set_port_address-IsAddress v)
          ∙ rw (set_port_address-fields v) (omega arith),
    )

-- The order of the dataclass is the order of the numbers.
pub address_lt-port_address :
    (p q : PortAddress)
    → IsAddress p
    → IsAddress q
    → address_lt p q ≡ ltb (port_address p) (port_address q)
unfolding address_lt
address_lt-port_address p q hp hq = rw (port_address-sum p hp, port_address-sum q hq) (ground arith)
