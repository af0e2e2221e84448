-- ===== src/Packet.antt =====
-- The messages of Packet.h and Packet.cpp: the header with its payload, and the four kinds of
-- message as instances of one interface, which stands for the virtual functions of `Packet`.
pub mod OptData
pub mod Header
pub mod Ping
pub mod Pong
pub mod Query
pub mod QueryResult
pub mod QueryHits
pub mod Safety
pub mod Message
