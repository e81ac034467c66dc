-- ===== src/Tests.antt =====
-- Concrete inputs for the theorems.
mod Fixtures
mod World
mod Realm
mod Arrival
mod Journey
mod Players
mod Spawns
mod Maps
mod Sessions
mod Buffers
mod Login
mod Account
mod Hashes
