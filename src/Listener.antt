-- ===== src/Listener.antt =====
-- Listener.h and Listener.cpp: the state of a node, and what it does with each message.
pub mod State
pub mod Peers
pub mod History
pub mod Search
pub mod Listing
pub mod Network
pub mod Routing
pub mod Receive
pub mod Commands
pub mod Node
pub mod Config
pub mod Download
pub mod Loop
