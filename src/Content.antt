-- ===== src/Content.antt =====
-- domain/content, application/content and what stands behind them in infrastructure: the model of a
-- Content, the table of Contents and the store of their blobs.
pub mod Model
pub mod Repository
pub mod Storage
pub mod Reading
pub mod Access
pub mod Read
pub mod Cursor
pub mod Inspect
pub mod Batch
