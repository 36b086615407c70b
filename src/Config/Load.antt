-- ===== src/Config/Load.antt =====
-- `LoadConfig` of internal/config/config.go and the parsers of the parts.
pub mod Laws
use capi_shell_mcp.Base.{
  GoString, lit, List, [], ◌∷◌, Map, lookup, str_eq, Option, none, some, Result, ok, err, ◌>>=◌,
  map_error, plain, plain_about, wrapped, ◌++◌, is_empty, if◌then◌else◌,
}
use capi_shell_mcp.Config.{KubeconfigTransforms, KubeconfigSource, CacheConfig, AppConfig, ℤ, pos}
use capi_shell_mcp.Config.Env.{expand_env}
use capi_shell_mcp.Config.Yaml.{Yaml, as_text, as_object, as_list, to_int}

-- A part is there, or its default.
abbrev pub or_else {ℓ} : {A : Type ℓ} → Option A → A → A
or_else none a = a
or_else (some b) a = b

unfoldable pub texts_of : List Yaml → List GoString
texts_of [] = []
texts_of (v ∷ vs) =
    let rest = texts_of vs in elim (as_text (some v)) [ none ↦ rest | some s ↦ s ∷ rest ]

-- `nil` and the empty slice are both [].
unfoldable pub parse_contexts : Option Yaml → List GoString
unfolding texts_of
parse_contexts raw = texts_of (or_else (as_list raw) [])

unfoldable pub text_fields : Map GoString Yaml → Map GoString GoString
text_fields [] = []
text_fields ((k, v) ∷ fs) =
    let rest = text_fields fs in elim (as_text (some v)) [ none ↦ rest | some s ↦ (k, s) ∷ rest ]

unfoldable pub parse_custom_fields : Option Yaml → Map GoString GoString
unfolding text_fields
parse_custom_fields raw = text_fields (or_else (as_object raw) [])

-- Three texts of which some may be missing.
abbrev pub transforms_of :
    Option GoString → Option GoString → Option GoString → Option KubeconfigTransforms
transforms_of none none none = none
transforms_of c x u =
    some (record { clusters = or_else c []; contexts = or_else x []; users = or_else u [] })

unfoldable pub parse_transforms : Option Yaml → Option KubeconfigTransforms
parse_transforms raw = elim (as_object raw) [
  | none ↦ none
  | some obj ↦
      transforms_of (as_text (lookup (lit "clusters") obj)) (as_text (lookup (lit "contexts") obj))
        (as_text (lookup (lit "users") obj))
]

unfoldable pub parse_cache : Option Yaml → CacheConfig
parse_cache raw =
    let obj = or_else (as_object raw) [] in
    record {
      cluster_list_ttl_seconds = or_else (to_int (lookup (lit "cluster_list_ttl") obj)) (pos 300);
      kubeconfig_ttl_seconds = or_else (to_int (lookup (lit "kubeconfig_ttl") obj)) (pos 3600);
    }

module _ (getenv : GoString → GoString) where
  unfoldable pub read_sshuttle_host : Map GoString Yaml → GoString
  read_sshuttle_host raw = elim (as_object (lookup (lit "plugins") raw)) [
    | none ↦ []
    | some plugins ↦ elim (as_object (lookup (lit "api-endpoint-proxy") plugins)) [
      | none ↦ []
      | some plugin ↦ elim (as_object (lookup (lit "sshuttle") plugin)) [
        | none ↦ []
        | some sshuttle ↦ elim (as_text (lookup (lit "host") sshuttle)) [
          | none ↦ []
          | some host ↦ expand_env getenv host
        ]
      ]
    ]
  ]

  -- One round of the loop over the kubeconfigs.
  unfoldable pub parse_source : GoString → Yaml → Result KubeconfigSource
  unfolding read_sshuttle_host parse_contexts
  parse_source name v = elim (as_object (some v)) [
    | none ↦ err (plain_about (lit "config: kubeconfigs.%s must be an object") name)
    | some entry ↦ elim (as_text (lookup (lit "path") entry)) [
      | none ↦ err (plain_about (lit "config: kubeconfigs.%s.path must be a string") name)
      | some path ↦ ok (record {
        name = name;
        path = expand_env getenv path;
        contexts = parse_contexts (lookup (lit "contexts") entry);
        sshuttle_host = read_sshuttle_host entry;
      })
    ]
  ]

  unfoldable pub parse_sources : Map GoString Yaml → Result (Map GoString KubeconfigSource)
  parse_sources [] = ok []
  parse_sources ((name, v) ∷ fs) =
      parse_source name v >>= λ src. parse_sources fs >>= λ srcs. ok ((name, src) ∷ srcs)

  no_kubeconfigs : Result (Map GoString KubeconfigSource)
  no_kubeconfigs = err (plain (lit "config: kubeconfigs must be a non-empty map of name to config"))

  sources_from : Option (Map GoString Yaml) → Result (Map GoString KubeconfigSource)
  sources_from none = no_kubeconfigs
  sources_from (some []) = no_kubeconfigs
  sources_from (some (f ∷ fs)) = parse_sources (f ∷ fs)

  abbrev pub config_with : Map GoString Yaml → Map GoString KubeconfigSource → AppConfig
  config_with raw srcs = record {
    kubeconfigs = srcs;
    transforms = parse_transforms (lookup (lit "transforms") raw);
    custom_fields = parse_custom_fields (lookup (lit "custom_fields") raw);
    sshuttle_host = read_sshuttle_host raw;
    cache = parse_cache (lookup (lit "cache") raw);
  }

  -- What follows the decoding of the file.
  unfoldable pub config_of : Map GoString Yaml → Result AppConfig
  unfolding sources_from no_kubeconfigs
  config_of raw = sources_from (as_object (lookup (lit "kubeconfigs") raw)) >>= λ srcs.
      ok (config_with raw srcs)

-- os.Getenv, os.UserHomeDir, os.ReadFile, filepath.Join and yaml.Unmarshal into a map.
pub record Host : Type 0 where
  pub getenv : GoString → GoString
  pub home_dir : Result GoString
  pub read_file : GoString → Result GoString
  pub join_path : List GoString → GoString
  pub decode : GoString → Result (Map GoString Yaml)

module _ (host : Host) where
  default_path : Result GoString → Result GoString
  default_path (err e) = err (wrapped (lit "config: resolving home directory") e)
  default_path (ok home) =
      ok (host.join_path (home ∷ lit ".config" ∷ lit "capi-shell" ∷ lit "config.yaml" ∷ []))

  unfoldable pub config_path : Result GoString
  unfolding default_path
  config_path =
      let p = host.getenv (lit "CAPI_SHELL_MCP_CONFIG") in
      if is_empty p then (default_path host.home_dir) else ok p

  unfoldable pub load_config : GoString → Result AppConfig
  load_config path =
      map_error (wrapped (lit "config: reading " ++ path)) (host.read_file path) >>= λ contents.
      map_error (wrapped (lit "config: parsing " ++ path)) (host.decode contents) >>= λ raw.
      config_of host.getenv raw

  unfoldable pub load : Result AppConfig
  load = config_path >>= load_config
