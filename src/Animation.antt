-- ===== src/Animation.antt =====
-- The animations of custom_components/dmx/animation.
pub mod Engine
pub mod Exclusive
pub mod Channels
pub mod Conflicts
pub mod RunsOn
pub mod Tests
