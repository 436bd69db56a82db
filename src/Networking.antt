-- ===== src/Networking.antt =====
-- shared/networking and internal/networking: events, handlers and the response to one request.
pub mod Events
pub mod HandlerMap
pub mod Response
pub mod Head
mod Tests
