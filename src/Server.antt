-- ===== src/Server.antt =====
-- internal/server: the HTTP server of the webhook and of the web interface.
pub mod Paging
pub mod Http
pub mod Middleware
pub mod Webhook
pub mod Debounce
pub mod Broadcaster
pub mod Dto
pub mod Api
pub mod PlanApi
pub mod Serve
mod Tests
