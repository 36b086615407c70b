-- ===== src/Config/Load/Laws.antt =====
-- Which configurations are accepted.
use capi_shell_mcp.Base.{
  GoString, lit, [], ◌∷◌, Map, lookup, str_eq, str_beq_iff, some, Option-cases, ok, >>=-eq-ok,
  Result-cases, All, ◌≡◌, ◌↔◌, refl, inl, inr, arith,
}
use capi_shell_mcp.Config.{KubeconfigSource, AppConfig}
use capi_shell_mcp.Config.Yaml.{Yaml, as_text, as_object}
use capi_shell_mcp.Config.Load.{parse_source, parse_sources, config_with, config_of}

-- An object with a path.
pub record IsSource (v : Yaml) : Type 0 where
  pub entry : Map GoString Yaml
  pub path : GoString
  pub is_object : as_object (some v) ≡ some entry
  pub has_path : as_text (lookup (lit "path") entry) ≡ some path

-- "kubeconfigs" is an object that is not empty, and each of its values is an object with a path.
pub record HasSources (raw : Map GoString Yaml) : Type 0 where
  pub first : GoString × Yaml
  pub others : Map GoString Yaml
  pub is_object : as_object (lookup (lit "kubeconfigs") raw) ≡ some (first ∷ others)
  pub are_sources : All (λ f. IsSource f.1) (first ∷ others)

-- A source has the name under which it is found.
abbrev pub IsNamed : Map GoString KubeconfigSource → Type 0
IsNamed srcs = (n : GoString) (src : KubeconfigSource) → lookup n srcs ≡ some src → src.name ≡ n

module _ (getenv : GoString → GoString) where
  parse_source-ok :
      (n : GoString) (v : Yaml)
      → IsSource v
      → (src : KubeconfigSource) × (parse_source getenv n v ≡ ok src) × (src.name ≡ n)
  unfolding parse_source
  parse_source-ok n v h = rw (h.is_object, h.has_path, parse_source) (_, refl, refl)

  parse_source-IsSource :
      (n : GoString) (v : Yaml) (src : KubeconfigSource)
      → parse_source getenv n v ≡ ok src
      → IsSource v
  unfolding parse_source
  parse_source-IsSource n v src h = elim (Option-cases (as_object (some v))) [
    | inl none_there ↦ absurd (ground arith)
    | inr (entry, there) ↦ elim (Option-cases (as_text (lookup (lit "path") entry))) [
      | inl no_path ↦ absurd (ground arith)
      | inr (path, at) ↦ record { entry = entry; path = path; is_object = there; has_path = at }
    ]
  ]

  parse_sources-ok :
      (fs : Map GoString Yaml)
      → All (λ f. IsSource f.1) fs
      → (srcs : Map GoString KubeconfigSource) × (parse_sources getenv fs ≡ ok srcs) × IsNamed srcs
  unfolding parse_sources lookup
  parse_sources-ok [] h = ([], refl, λ n src found. absurd (cc))
  parse_sources-ok ((k, v) ∷ fs) (hv, h) =
      let (src, parsed, name) = parse_source-ok k v hv in
      let (srcs, rest, named) = parse_sources-ok fs h in
      (
        (k, src) ∷ srcs,
        rw (parsed, rest) refl,
        λ n found at. ground (arith, named n found, str_beq_iff k n),
      )

  parse_sources-All :
      (fs : Map GoString Yaml) (srcs : Map GoString KubeconfigSource)
      → parse_sources getenv fs ≡ ok srcs
      → All (λ f. IsSource f.1) fs
  unfolding parse_sources
  parse_sources-All [] srcs h = tt
  parse_sources-All ((k, v) ∷ fs) srcs h =
      let (src, parsed, h1) = >>=-eq-ok (parse_source getenv k v) _ h in
      let (rest, all_parsed, _) = >>=-eq-ok (parse_sources getenv fs) _ h1 in
      (parse_source-IsSource k v src parsed, parse_sources-All fs rest all_parsed)

  -- A configuration is accepted exactly if "kubeconfigs" is an object that is not empty and each of
  -- its values is an object with a text for a path, whatever the other parts are; every source of the
  -- accepted configuration has the name under which it is found.
  pub config_of_iff :
      (raw : Map GoString Yaml)
      → ((cfg : AppConfig) × (config_of getenv raw ≡ ok cfg) × IsNamed cfg.kubeconfigs)
        ↔ HasSources raw
  unfolding config_of
  config_of_iff raw = (there, back)
    where
      there :
          (cfg : AppConfig) × (config_of getenv raw ≡ ok cfg) × IsNamed cfg.kubeconfigs
          → HasSources raw
      there (cfg, h, named) = elim (Option-cases (as_object (lookup (lit "kubeconfigs") raw))) [
        | inl missing ↦ absurd (ground arith)
        | inr ([], empty) ↦ absurd (ground arith)
        | inr (f ∷ fs, at) ↦ elim (Result-cases (parse_sources getenv (f ∷ fs))) [
          | inl (srcs, parsed) ↦ record {
            first = f;
            others = fs;
            is_object = at;
            are_sources = parse_sources-All (f ∷ fs) srcs parsed;
          }
          | inr (e, bad) ↦ absurd (ground arith)
        ]
      ]

      back :
          HasSources raw
          → (cfg : AppConfig) × (config_of getenv raw ≡ ok cfg) × IsNamed cfg.kubeconfigs
      back h =
          let (srcs, parsed, named) = parse_sources-ok (h.first ∷ h.others) h.are_sources in
          (config_with getenv raw srcs, rw (h.is_object, parsed) refl, named)
