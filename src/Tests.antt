-- ===== src/Tests.antt =====
-- A concrete platform with one server and one key, and the theorems at concrete inputs.
pub mod Bytes
pub mod Wires
pub mod Clients
pub mod Engines
pub mod World
pub mod Refined
pub mod Batches
pub mod Caches
pub mod Servers
pub mod Setup
pub mod Requests
pub mod Swapping
pub mod Traces
pub mod Served
pub mod Turns
pub mod Consumed
