-- ===== src/Examples.antt =====
-- Tests on small inputs, and each theorem at an input that meets its hypotheses.
mod Data
mod Tasks
mod Scheduling
mod Providers
mod Agents
mod Reports
mod Queues
mod Stores
mod Engines
mod Ticks
mod Accounts
mod Bundles
