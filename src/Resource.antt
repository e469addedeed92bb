-- ===== src/Resource.antt =====
-- src/resource: what a node shares, and what it downloads.
pub mod Keys
pub mod Store
pub mod Transfer
pub mod Download
