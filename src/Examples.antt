-- ===== src/Examples.antt =====
-- Runs on concrete documents: the inputs, and the theorems at these inputs.
mod Samples
mod Transitions
mod Matches
mod Confirmations
mod Histories
mod Audits
mod Deliveries
mod Screenings
mod Sweeps
mod Events
mod Creations
mod Reorgs
