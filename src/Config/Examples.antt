-- ===== src/Config/Examples.antt =====
-- Tests and instances for the configuration.
use capi_shell_mcp.Base.{
  GoString, lit, List, [], ◌∷◌, Map, lookup, str_eq, some, ok, ◌≡◌, ◌↔◌, refl, arith, if◌then◌else◌,
  ◌==◌,
}
use capi_shell_mcp.Config.{AppConfig, pos}
use capi_shell_mcp.Config.Env.{expand, expand_env, match_variable, braced_name, bare_name}
use capi_shell_mcp.Config.Env.Render.{
  Segment, plain, braced, bare, render, values, expand_env-render,
}
use capi_shell_mcp.Config.Yaml.{Yaml, text, int, object, end, field, map_of}
use capi_shell_mcp.Config.Load.{config_of, parse_cache}
use capi_shell_mcp.Config.Load.Laws.{HasSources, IsNamed, config_of_iff}

abbrev environment : GoString → GoString
environment name = if name == lit "HOME" then lit "/root" else []

stray_dollars_test : expand_env environment (lit "a$1${}$HOME/x${HOME") ≡ lit "a$1${}/root/x${HOME"
unfolding expand_env expand match_variable braced_name bare_name
stray_dollars_test = refl

-- "~$HOME/${HOME}", where the name without braces ends at the slash.
abbrev home_twice : List Segment
home_twice = plain b'~' ∷ bare (lit "HOME") ∷ plain b'/' ∷ braced (lit "HOME") ∷ []

expand_env-render_example :
    expand_env environment (render home_twice) ≡ values environment home_twice
expand_env-render_example = expand_env-render environment home_twice (ground arith)

-- One kubeconfig, and the rest left out.
abbrev small : Map GoString Yaml
small =
    (
      lit "kubeconfigs",
      object (field (lit "prod") (object (field (lit "path") (text (lit "/kc/prod")) end)) end),
    )
    ∷ []

config_of_iff_example :
    ((cfg : AppConfig) × (config_of environment small ≡ ok cfg) × IsNamed cfg.kubeconfigs)
    ↔ HasSources small
config_of_iff_example = config_of_iff environment small

cache_test :
    parse_cache (some (object (field (lit "cluster_list_ttl") (int (pos 5)) end)))
    ≡ record { cluster_list_ttl_seconds = pos 5; kubeconfig_ttl_seconds = pos 3600 }
unfolding parse_cache lookup map_of
cache_test = refl
