-- ===== src/Topology.antt =====
-- src/archTopology.c: what the machine looks like, from its sysfs tree and from archTopo.h.
pub mod Counts
pub mod Nodes
pub mod Caches
pub mod Cpus
pub mod Fits
pub mod Matrix
pub mod Memory
pub mod Directories
pub mod Affinity
pub mod Neighbors
