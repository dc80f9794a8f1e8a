-- ===== src/Examples.antt =====
-- Runs of the modelled parts at concrete inputs, and the theorems applied to them.
mod Clocks
mod Mailboxes
mod Registries
mod Members
mod Names
mod Actors
mod Loops
mod Nodes
mod Timings
mod Idling
mod Supervisors
mod Groups
mod Stages
mod Authentication
mod Heartbeats
