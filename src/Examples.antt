-- ===== src/Examples.antt =====
-- The theorems at concrete inputs, and tests of the definitions.
mod Data
mod Store
mod Jobs
mod Effects
mod Graphs
mod Ledgers
mod Dispatches
mod Stops
mod Starts
mod Ticks
mod Pipelines
