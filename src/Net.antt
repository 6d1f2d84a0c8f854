-- ===== src/Net.antt =====
-- NETLIB/net: the reactor network library.
pub mod Examples
pub mod Buffer
pub mod Connection
pub mod Connector
pub mod LoopPool
pub mod Channel
pub mod Epoller
pub mod Poller
pub mod EventLoop
pub mod Timers
pub mod ThreadPool
