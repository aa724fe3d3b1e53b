-- ===== src/Routing.antt =====
-- internal/routing: what a notification job decides and sends.
pub mod Rules
pub mod Store
pub mod Notify
pub mod Messages
