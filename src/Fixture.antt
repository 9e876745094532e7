-- ===== src/Fixture.antt =====
-- The fixtures of custom_components/dmx/fixture and the entities that show their channels.
pub mod Channel
pub mod Range
pub mod Select
pub mod Shown
pub mod Options
pub mod Group
pub mod Grouping
pub mod Lights
pub mod LightPlan
pub mod LightChannels
pub mod LightOrder
pub mod Tests
