-- ===== src/Tests.antt =====
-- The theorems at concrete inputs, and runs of the definitions.
mod Ballots
mod Boxes
mod Queues
mod Peers
mod Histories
mod Nodes
mod Logs
mod Batches
mod Segments
mod Replicators
mod Storages
mod Applying
mod Requests
mod Tasks
