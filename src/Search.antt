-- ===== src/Search.antt =====
-- application/search and infrastructure/search: provider search, its admission and accounting.
pub mod Flow
pub mod Rate
pub mod Leases
pub mod Attempts
pub mod Registry
pub mod Item
pub mod Batch
pub mod Usage
pub mod Providers
pub mod Cache
pub mod Flight
