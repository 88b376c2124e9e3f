-- ===== src/Gateway/Bounds.antt =====
-- The limits on what a tool returns.
pub mod Bytes
pub mod Listings
pub mod Matches
