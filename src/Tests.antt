-- ===== src/Tests.antt =====
-- Runs of the definitions on concrete inputs, and each theorem at an input that meets its
-- hypotheses.
mod Chunks
mod Gossips
mod Enforcers
mod Permissions
mod Invites
mod Addresses
mod Coordinators
mod Nodes
mod Contents
mod Clients
