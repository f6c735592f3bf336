-- ===== src/Server.antt =====
-- src/tcp_server.cpp: the clients of the server, and what one event on a connection does.
pub mod Client
pub mod Input
pub mod Pipeline
pub mod Events
pub mod Options
pub mod Settings
pub mod Startup
pub mod Order
pub mod Sound
pub mod Sending
pub mod Returns
pub mod Reach
pub mod Tests
pub mod Delivery
