-- ===== src/Embed/Mount.antt =====
-- internal/embed/mount.go, with the input schema of `wrapFanOut` in fanout.go. What kubernetes-mcp-server
-- gives is the fields of `ToolLibrary`: `J` are the raw JSON values, `S` is the state of its tools.
pub mod Guard
use capi_shell_mcp.Base.{
  ℕ, GoString, lit, List, [], ◌∷◌, ◌++◌, Map, insert, delete, str_eq, Option, none, some, Result,
  ok, err, wrapped, Exec, bind, map_error, lift, Bool, true, false, if◌then◌else◌,
}
use capi_shell_mcp.Embed.{TargetResolver}
use capi_shell_mcp.Embed.Provider.{get_default_target, get_target_parameter_name, is_multi_target}
use capi_shell_mcp.Embed.FanOut.{
  Coding, Request, HandlerResult, FanOutResult, clusters_parameter_name, target_parameter_name,
  wrapped_handler,
}

-- A property of a schema: the one that the program writes, or one of the library.
pub data PropertySchema : Type 0 where
  strings_with_description : GoString → PropertySchema
  other_property : GoString → PropertySchema

-- Nothing stands for a nil map of properties.
pub record Schema : Type 0 where
  pub properties : Option (Map GoString PropertySchema)
  pub required : List GoString

-- A tool of the library, after the mutators.
pub record ServerTool : Type 0 where
  pub name : GoString
  pub is_target_list_provider : Bool
  pub is_cluster_aware : Bool
  pub read_only_hint : Option Bool

-- An input schema of another type is nothing.
pub record GoTool : Type 0 where
  pub name : GoString
  pub input_schema : Option Schema

-- A handler of the library, or the one that `wrapFanOut` returns; `order` is that of its goroutines.
pub data MountedHandler (S : Type 0) : Type 0 where
  bare : (Request → Exec S HandlerResult) → MountedHandler S
  fanned : (List ℕ → Request → Exec S FanOutResult) → MountedHandler S

pub record Mounted (S : Type 0) : Type 0 where
  pub tool : GoTool
  pub handler : MountedHandler S

pub record ToolLibrary (S : Type 0) : Type 0 where
  -- kmcp.NewServer with the provider.
  pub new_server : Result (Unit {0})
  -- The tools of each set.
  pub toolsets : List (List ServerTool)
  -- The default target, the name of the parameter, and whether there are several targets.
  pub with_target_parameter : GoString → GoString → Bool → ServerTool → ServerTool
  -- ServerToolToGoSdkTool
  pub convert : ServerTool → Result (GoTool × (Request → Exec S HandlerResult))

unfoldable pub clusters_param_description : Bool → GoString
clusters_param_description true =
    lit
      "One or more cluster targets, each \"kubeconfig[/context[/namespace[/name]]]\" (from list_clusters' target field, or a shorter prefix to select every matching cluster). Omit entirely to run against every known cluster; an empty array runs against none."
clusters_param_description false =
    lit
      "One or more cluster targets, each the full \"kubeconfig/context/namespace/name\" path (from list_clusters' target field) — no partial/prefix matching for this tool. Required; an empty array runs against none."

-- schema.Properties without "cluster", or a new map.
abbrev pub without_target : Option (Map GoString PropertySchema) → Map GoString PropertySchema
without_target none = []
without_target (some ps) = delete target_parameter_name ps

unfoldable pub fan_out_schema : Bool → Schema → Schema
fan_out_schema read_only schema = record {
  properties = some (
      insert clusters_parameter_name
        (strings_with_description (clusters_param_description read_only))
        (without_target schema.properties));
  required = if read_only then schema.required else schema.required ++ clusters_parameter_name ∷ [];
}

abbrev pub schema_for : Bool → Option Schema → Option Schema
schema_for read_only none = none
schema_for read_only (some schema) = some (fan_out_schema read_only schema)

-- *ReadOnlyHint, false for nil.
abbrev pub read_only_of : ServerTool → Bool
read_only_of tool = elim tool.read_only_hint [ none ↦ false | some b ↦ b ]

module _ {S J : Type 0} (coding : Coding J) (resolver : TargetResolver S)
    (library : ToolLibrary S) where
  unfoldable pub wrap_fan_out : Bool → GoTool → (Request → Exec S HandlerResult) → Mounted S
  wrap_fan_out read_only tool handler = record {
    tool = record tool { input_schema = schema_for read_only tool.input_schema };
    handler = fanned (wrapped_handler coding resolver handler read_only);
  }

  -- The conversion of a tool that was mutated, and the wrapper of one that is aware of clusters.
  unfoldable pub mount_converted :
      ServerTool → GoTool × (Request → Exec S HandlerResult) → Mounted S
  mount_converted mutated (tool, handler) =
      if mutated.is_cluster_aware
      then wrap_fan_out (read_only_of mutated) tool handler
      else record { tool = tool; handler = bare handler }

  abbrev pub mutate : ServerTool → ServerTool
  mutate =
      library.with_target_parameter get_default_target get_target_parameter_name is_multi_target

  unfoldable pub mount_tool : ServerTool → Exec (List (Mounted S)) (Unit {0})
  mount_tool tool =
      let mutated = mutate tool in
      bind
        (lift (
          map_error (wrapped (lit "embed: converting tool " ++ mutated.name))
            (library.convert mutated)))
        λ converted mounted. (ok tt, mounted ++ mount_converted mutated converted ∷ [])

  unfoldable pub mount_list : List ServerTool → Exec (List (Mounted S)) (Unit {0})
  unfolding mount_tool
  mount_list [] mounted = (ok tt, mounted)
  mount_list (tool ∷ tools) mounted =
      if tool.is_target_list_provider
      then mount_list tools mounted
      else bind (mount_tool tool) (λ _. mount_list tools) mounted

  unfoldable pub mount_sets : List (List ServerTool) → Exec (List (Mounted S)) (Unit {0})
  mount_sets [] mounted = (ok tt, mounted)
  mount_sets (tools ∷ sets) mounted = bind (mount_list tools) (λ _. mount_sets sets) mounted

  -- The state is the tools of the server, in the order of their registration; the error, if any,
  -- leaves those before it.
  unfoldable pub mount_tools : Exec (List (Mounted S)) (Unit {0})
  mount_tools =
      bind
        (lift (
          map_error (wrapped (lit "embed: constructing kubernetes-mcp-server handle"))
            library.new_server))
        λ _. mount_sets library.toolsets
