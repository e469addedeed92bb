-- ===== src/Tests.antt =====
-- Runs of the model at fixed inputs, and the theorems at inputs where their hypotheses hold.
mod Samples
mod Wire
mod Links
mod Nodes
mod Downloads
mod Scans
mod Shares
mod Requests
mod Clients
mod Starts
mod Sharing
mod Threads
mod Launch
