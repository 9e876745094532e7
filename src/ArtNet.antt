-- ===== src/ArtNet.antt =====
-- Art-Net: port addresses and the packet classes
-- (custom_components/dmx/server/__init__.py).
pub mod Address
pub mod Codec
pub mod Flags
pub mod Poll
pub mod IpProg
pub mod Messages
pub mod PollReply
pub mod Program
pub mod Dmx
pub mod Server
mod Tests
