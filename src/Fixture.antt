-- ===== src/Fixture.antt =====
-- Fixture profiles: fixture_profile.h, fixture_profile.cpp and profile_encoder.cpp.
pub mod Capability
pub mod Profile
pub mod Parse
pub mod Apply
pub mod Ranges
pub mod Encode
mod Tests
