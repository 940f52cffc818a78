-- ===== src/Retrieval.antt =====
-- application/retrieval and infrastructure/retrieval: fetching known URLs.
pub mod Phase
pub mod Transport
pub mod Service
pub mod Batch
pub mod Fetcher
pub mod Body
pub mod Security
pub mod Client
