-- ===== src/Web.antt =====
-- src/web: what guards the web server.
pub mod AbuseGuard
