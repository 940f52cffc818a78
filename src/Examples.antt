-- ===== src/Examples.antt =====
-- Tests of the definitions on inputs that can be followed in the source, and the theorems at
-- inputs that meet their hypotheses.
mod Retrieval
mod Fetch
mod Search
mod Items
mod Usage
mod Content
mod Reading
mod Access
mod Providers
mod Security
mod Cursor
mod Flight
mod Inspect
