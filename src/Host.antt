-- ===== src/Host.antt =====
-- internal/host: what a Node does on its own, without libvirt, files and processes.
pub mod Outcome
pub mod Sizes
pub mod Bounded
pub mod Subnet
pub mod Disjoint
