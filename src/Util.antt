-- ===== src/Util.antt =====
-- The parts of Util.cpp that compute: texts, hexadecimal, random numbers and the write loop.
pub mod Hex
pub mod Text
pub mod Io
pub mod Split
pub mod Decimal
pub mod Files
pub mod Lines
pub mod Scan
pub mod Read
pub mod Printf
