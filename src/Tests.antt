-- ===== src/Tests.antt =====
-- Runs of the program's functions at concrete inputs.
mod Data
mod Collector
mod Redis
mod Services
mod Contract
mod Texts
mod Process
mod Node
mod Streams
mod Sets
