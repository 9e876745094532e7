-- ===== src/Universe.antt =====
-- One DMX universe: channel values, listeners, frames and their throttling
-- (custom_components/dmx/io/dmx_io.py).
pub mod State
pub mod Send
pub mod Values
pub mod Frame
pub mod Listeners
pub mod Output
pub mod FrameLength
pub mod Throttle
pub mod Quiet
pub mod Untimed
pub mod Clock
pub mod Due
pub mod Pace
mod Tests
