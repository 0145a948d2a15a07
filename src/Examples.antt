-- ===== src/Examples.antt =====
-- Concrete inputs: what the definitions compute, and the theorems at inputs that meet their
-- hypotheses.
pub mod Packs
pub mod Scans
pub mod Queues
pub mod Detonations
mod Feeds
mod Republished
pub mod Watched
mod Finals
mod Unpacked
mod Scopes
mod Siblings
mod Updates
mod Pivots
mod Focused
