-- ===== src/Tests.antt =====
-- Runs on small inputs, and the theorems at inputs that meet their hypotheses.
mod World
mod Slots
mod Decisions
mod Parsing
mod InMemory
mod Scaling
mod Statuses
mod Removals
mod Lines
mod Network
mod Sweeps
mod Moves
mod Repairs
mod Objects
mod Drains
mod Schema
mod Forming
