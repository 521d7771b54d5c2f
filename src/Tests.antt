-- ===== src/Tests.antt =====
-- Runs of the theorems at concrete inputs.
mod Sums
mod Ciphers
mod Buffers
mod Packets
mod Tables
mod Agents
mod Logins
