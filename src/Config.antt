-- ===== src/Config.antt =====
-- internal/config/config.go: the records that the other packages read.
pub mod Env
pub mod Yaml
pub mod Load
mod Examples
use capi_shell_mcp.Base.{GoString, List, Map, Option}
pub use capi_shell_mcp.Base.{ℤ, pos, negsuc, print_int}

pub record KubeconfigTransforms : Type 0 where
  pub clusters : GoString
  pub contexts : GoString
  pub users : GoString

pub record KubeconfigSource : Type 0 where
  pub name : GoString
  pub path : GoString
  pub contexts : List GoString
  pub sshuttle_host : GoString

pub record CacheConfig : Type 0 where
  pub cluster_list_ttl_seconds : ℤ
  pub kubeconfig_ttl_seconds : ℤ

pub record AppConfig : Type 0 where
  pub kubeconfigs : Map GoString KubeconfigSource
  pub transforms : Option KubeconfigTransforms
  pub custom_fields : Map GoString GoString
  pub sshuttle_host : GoString
  pub cache : CacheConfig
