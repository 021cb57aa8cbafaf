-- ===== src/Programs.antt =====
-- The small programs under lib/, each a file of its own with no more than a few functions. What a
-- program prints is left out, unless it goes to the controlling script.
pub mod Regions
pub mod Idle
pub mod Moves
pub mod Folio
pub mod Poison
pub mod Shared
pub mod Sample
pub mod Ndctl
