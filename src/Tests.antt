-- ===== src/Tests.antt =====
-- Runs of the models on concrete inputs.
pub mod Buffers
mod Entity
mod Protocol
mod Fences
pub mod Files
mod Listen
pub mod Metrics
mod Porter
mod Relay
mod Loop
mod Environment
mod Server
mod Maps
