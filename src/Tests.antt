-- ===== src/Tests.antt =====
-- Runs of the definitions on small inputs, and each theorem at an input that meets its hypotheses.
mod Machine
mod Topology
mod Queries
mod Files
mod Latencies
mod Lmbench
mod Timing
mod Topo
mod System
mod Arguments
mod Enough
mod Statistics
