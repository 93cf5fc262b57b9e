-- ===== src/Examples.antt =====
-- Runs of the model on concrete inputs, and each theorem at one.
mod Intervals
mod Projections
mod Deliveries
mod Transcripts
mod Codecs
mod Stores
mod Servers
mod Clients
mod Exports
