-- ===== src/Proxy.antt =====
-- p3: the proxy on boost::asio.
pub mod Client
pub mod Relay
pub mod Carried
pub mod Handlers
pub mod Delivery
pub mod Accept
pub mod Config
pub mod Examples
