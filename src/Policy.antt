-- ===== src/Policy.antt =====
-- The KV cache placement policies of simulator/src/pim_codegen/kv_cache_policy.h.
pub mod Weights
pub mod Interface
pub mod Naive
pub mod Partition
pub mod Contention
pub mod Locality
pub mod Agreement
