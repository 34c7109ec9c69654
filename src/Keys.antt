-- ===== src/Keys.antt =====
-- src/api/keys.rs, the endpoints on API keys, one child for each group of them.
pub mod Subtree
pub mod Listing
pub mod Create
pub mod Update
pub mod Rotate
pub mod Grants
pub mod Delete
