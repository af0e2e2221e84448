-- ===== src/Listener/Download.antt =====
-- The download of a file: the texts that are exchanged, and the two ends of the exchange.
pub mod Request
pub mod Response
pub mod Serve
pub mod Fetch
