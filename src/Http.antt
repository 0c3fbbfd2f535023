-- ===== src/Http.antt =====
-- The middleware of src/middleware/ that guards the routes.
pub mod Guards
pub mod Paging
pub mod Responses
pub mod Controllers
