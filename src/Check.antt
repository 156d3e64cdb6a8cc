-- ===== src/Check.antt =====
-- The check package: what a check is made of, and how one is made from what the server sent.
pub mod Details
pub mod Create
