-- ===== src/Common.antt =====
-- application/common: the operation contract shared by Search, Retrieval and Content.
pub mod Auth
pub mod Results
