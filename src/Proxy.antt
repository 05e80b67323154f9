-- ===== src/Proxy.antt =====
-- The caching HTTP proxy of task3.
pub mod Libraries
pub mod Http
pub mod Cache
pub mod References
pub mod Fetch
pub mod Sockets
pub mod Slice
pub mod Send
pub mod Client
mod Examples
