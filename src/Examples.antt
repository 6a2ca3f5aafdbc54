-- ===== src/Examples.antt =====
-- Concrete runs of the modelled code, and each theorem with hypotheses applied to one of them.
mod Data
mod Planning
mod Tables
mod Scheduling
mod Transfers
mod Checks
mod Network
mod Files
mod Like
mod Outcomes
mod Routes
