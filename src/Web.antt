-- ===== src/Web.antt =====
-- internal/web: the handlers, as functions from a request and the database to a response.
pub mod Http
pub mod Auth
pub mod Intake
pub mod Review
pub mod Pages
pub mod Guards
