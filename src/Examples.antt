-- ===== src/Examples.antt =====
-- Concrete data: each theorem at an input where its hypotheses hold, and the operations run on small
-- inputs.
mod Sources
mod Limits
mod Tokens
mod Uploads
mod Exports
mod Cycles
mod Clients
mod Workers
mod Configs
mod Panics
mod Shipments
