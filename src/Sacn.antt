-- ===== src/Sacn.antt =====
-- sACN (E1.31): the packets (custom_components/dmx/server/sacn_packet.py), the server and the
-- receiver (custom_components/dmx/server/sacn_server.py).
pub mod Packet
pub mod Sync
pub mod Server
pub mod Receiver
mod Tests
