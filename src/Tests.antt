-- ===== src/Tests.antt =====
-- Runs of the code on small inputs, and each theorem at one of them.
mod Data
mod Packets
mod Nodes
mod Routes
mod Shells
mod Downloads
mod Handshakes
mod Loops
mod Sessions
mod Networks
mod Programs
mod Reads
