-- ===== src/Api.antt =====
-- app/api: the endpoints, and the call of chat completions as a whole.
pub mod Admin
pub mod Switch
pub mod Listing
pub mod Health
pub mod Agree
pub mod Models
pub mod Embeddings
pub mod FirstGood
pub mod Completions
pub mod Guarded
pub mod Tests
