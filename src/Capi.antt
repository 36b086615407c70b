-- ===== src/Capi.antt =====
-- internal/capi: targets, patterns, the selection of clusters, the cache keys.
pub mod Target
pub mod Pattern
pub mod Resolve
pub mod Keys
pub mod Jq
pub mod Kube
pub mod ReadOnly
mod Examples
