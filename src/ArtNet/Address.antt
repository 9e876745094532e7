-- ===== src/ArtNet/Address.antt =====
-- `PortAddress` of custom_components/dmx/server/__init__.py.
pub mod Laws
use ha_artnet_led.Base.{
  ℕ, ◌*◌, ◌/◌, ◌^◌, ◌<◌, Bool, true, ◌&&◌, ◌||◌, leb, ltb, ◌==◌, bit_and, bit_or,
}
use ha_artnet_led.Base.Result.{Result, ok, ◌>>=◌, ◌>>◌, check}

pub record PortAddress : Type 0 where
  pub net : ℕ
  pub sub_net : ℕ
  pub universe : ℕ

-- `PortAddress.__init__`
unfoldable pub make_port_address : ℕ → ℕ → ℕ → Result PortAddress
make_port_address net sub_net universe = do
  check (leb net 0xF)
  check (leb sub_net 0xF)
  check (leb universe 0x1FF)
  ok (record { net = net; sub_net = sub_net; universe = universe })

-- `(self.net << 13) | (self.sub_net << 9) | self.universe`
unfoldable pub port_address : PortAddress → ℕ
port_address p = bit_or (bit_or (p.net * 2 ^ 13) (p.sub_net * 2 ^ 9)) p.universe

-- The setter of `port_address`, which writes all three fields, and `parse`.
unfoldable pub set_port_address : ℕ → PortAddress
set_port_address v = record {
  net = bit_and (v / 2 ^ 13) 0xF;
  sub_net = bit_and (v / 2 ^ 9) 0xF;
  universe = bit_and v 0x1FF;
}

unfoldable pub parse : ℕ → Result PortAddress
parse v = make_port_address (bit_and (v / 2 ^ 13) 0xF) (bit_and (v / 2 ^ 9) 0xF) (bit_and v 0x1FF)

-- `==` and `<` of `@dataclass(order=True)`: the fields as a tuple.
unfoldable pub address_eq : PortAddress → PortAddress → Bool
address_eq p q = p.net == q.net && (p.sub_net == q.sub_net && p.universe == q.universe)

unfoldable pub address_lt : PortAddress → PortAddress → Bool
address_lt p q =
    ltb p.net q.net
    || (p.net == q.net
        && (ltb p.sub_net q.sub_net || (p.sub_net == q.sub_net && ltb p.universe q.universe)))

-- What the constructor asserts.
pub record IsAddress (p : PortAddress) : Type 0 where
  pub net_low : p.net < 16
  pub sub_net_low : p.sub_net < 16
  pub universe_low : p.universe < 512
