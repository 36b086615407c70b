-- ===== src/Embed/Mount/Guard.antt =====
-- Which tools are mounted, and what one that may write needs.
use capi_shell_mcp.Base.{
  ℕ, GoString, lit, List, [], ◌∷◌, Map, lookup, lookup-delete, lookup-insert, str_eq, Option, none,
  some, ok, Exec, All, true, false, Bool-cases, Result-cases, inl, inr, ◌≡◌, ◌≢◌, refl, arith, Elem,
  Elem-append, All-append, All-Elem, subst, sym, str_beq_iff, Preserves, bind-Preserves,
  if◌then◌else◌, bind, lift, map_error, wrapped, ap, ◌∙◌, ◌⊎◌,
}
use capi_shell_mcp.Capi.Resolve.Strict.{HasFour}
use capi_shell_mcp.Embed.{TargetResolver}
use capi_shell_mcp.Embed.FanOut.{
  Coding, Request, HandlerResult, FanOutResult, clusters_parameter_name, target_parameter_name,
  wrapped_handler, arguments_of,
}
use capi_shell_mcp.Embed.FanOut.Guard.{wrapped_handler_guard}
use capi_shell_mcp.Embed.Mount.{
  GoTool, ServerTool, Mounted, ToolLibrary, Schema, mount_tools, mount_sets, mount_list,
  PropertySchema, mutate, mount_tool, without_target, mount_converted, wrap_fan_out, fan_out_schema,
  schema_for, read_only_of, MountedHandler, bare, fanned,
}

module _ {S J : Type 0} (coding : Coding J) (resolver : TargetResolver S)
    (library : ToolLibrary S) where
  -- The tool of the library that a mounted one was made from.
  pub record IsFrom (m : Mounted S) : Type 0 where
    pub set : List ServerTool
    pub is_set : Elem set library.toolsets
    pub source : ServerTool
    pub in_set : Elem source set
    pub not_listing : source.is_target_list_provider ≡ false
    pub converted : GoTool × (Request → Exec S HandlerResult)
    pub conversion : library.convert (mutate coding resolver library source) ≡ ok converted
    pub mounted :
        m
        ≡ mount_converted coding resolver library (mutate coding resolver library source) converted

  abbrev AllFrom : List (Mounted S) → Type 0
  AllFrom = All IsFrom

  mount_tool-AllFrom :
      (set : List ServerTool)
      → Elem set library.toolsets
      → (tool : ServerTool) → Elem tool set
      → tool.is_target_list_provider ≡ false
      → Preserves AllFrom (mount_tool coding resolver library tool)
  unfolding mount_tool
  mount_tool-AllFrom set is_set tool in_set keep ms h =
      elim (Result-cases (library.convert (mutate coding resolver library tool))) [
        | inr (e, bad) ↦ rw (bad, mount_tool) h
        | inl (c, fine) ↦
            rw (fine, mount_tool)
              (All-append IsFrom ms _ h (
                record {
                  set = set;
                  is_set = is_set;
                  source = tool;
                  in_set = in_set;
                  not_listing = keep;
                  converted = c;
                  conversion = fine;
                  mounted = refl;
                },
                tt,
              ))
      ]

  mount_list-AllFrom :
      (set : List ServerTool)
      → Elem set library.toolsets
      → (tools : List ServerTool) → ((tool : ServerTool) → Elem tool tools → Elem tool set)
      → Preserves AllFrom (mount_list coding resolver library tools)
  unfolding mount_list
  mount_list-AllFrom set is_set [] among = λ ms h. h
  mount_list-AllFrom set is_set (tool ∷ tools) among = λ ms h.
      let skip = mount_list coding resolver library tools in
      let keep =
        bind (mount_tool coding resolver library tool)
          (λ _. mount_list coding resolver library tools) in
      let rest = mount_list-AllFrom set is_set tools (λ t is_in. among t (inr is_in)) in
      elim (Bool-cases tool.is_target_list_provider) [
        | inl skipped ↦
            subst (λ b. AllFrom (if b then skip ms else keep ms).1) (sym skipped) (rest ms h)
        | inr kept ↦
            subst (λ b. AllFrom (if b then skip ms else keep ms).1) (sym kept)
              (bind-Preserves AllFrom (mount_tool coding resolver library tool) (λ _. skip)
                (mount_tool-AllFrom set is_set tool (among tool (inl refl)) kept) (λ _. rest) ms h)
      ]

  mount_sets-AllFrom :
      (sets : List (List ServerTool))
      → ((set : List ServerTool) → Elem set sets → Elem set library.toolsets)
      → Preserves AllFrom (mount_sets coding resolver library sets)
  unfolding mount_sets
  mount_sets-AllFrom [] among = λ ms h. h
  mount_sets-AllFrom (tools ∷ sets) among =
      bind-Preserves AllFrom (mount_list coding resolver library tools) _
        (mount_list-AllFrom tools (among tools (inl refl)) tools (λ t is_in. is_in))
        (λ _. mount_sets-AllFrom sets (λ set is_in. among set (inr is_in)))

  mount_tools-AllFrom : AllFrom (mount_tools coding resolver library []).1
  unfolding mount_tools
  mount_tools-AllFrom =
      bind-Preserves AllFrom
        (lift (
          map_error (wrapped (lit "embed: constructing kubernetes-mcp-server handle"))
            library.new_server))
        (λ _. mount_sets coding resolver library library.toolsets) (λ ms h. h)
        (λ _. mount_sets-AllFrom library.toolsets (λ set is_in. is_in)) [] tt

  -- "clusters" is given, as a list of full targets.
  pub record NamesFullTargets (req : Request) : Type 0 where
    pub args : Map GoString J
    pub raw : J
    pub targets : List GoString
    pub decoded : arguments_of coding req.arguments ≡ ok args
    pub given : lookup clusters_parameter_name args ≡ some raw
    pub strings : coding.decode_strings raw ≡ ok targets
    pub full : All HasFour targets

  -- The schema of the tool demands "clusters" and knows no "cluster".
  abbrev pub AsksForClusters : Option Schema → Type 0
  AsksForClusters none = Unit {0}
  AsksForClusters (some schema) =
      Elem clusters_parameter_name schema.required
      × (ps : Map GoString PropertySchema) × (schema.properties ≡ some ps)
      × (lookup target_parameter_name ps ≡ none)

  without_target-lacks :
      (props : Option (Map GoString PropertySchema))
      → lookup target_parameter_name (without_target props) ≡ none
  without_target-lacks none = unfold lookup in refl
  without_target-lacks (some ps) = ground (
    arith,
    lookup-delete target_parameter_name target_parameter_name ps,
    str_beq_iff target_parameter_name target_parameter_name,
  )

  schema_for-AsksForClusters : (schema : Option Schema) → AsksForClusters (schema_for false schema)
  unfolding fan_out_schema
  schema_for-AsksForClusters none = tt
  schema_for-AsksForClusters (some schema) = (
    (Elem-append clusters_parameter_name schema.required (clusters_parameter_name ∷ [])).1
        (inr (inl refl)),
    _,
    refl,
    lookup-insert clusters_parameter_name target_parameter_name _ (without_target schema.properties)
        ∙ without_target-lacks schema.properties,
  )

  fanned-injective : (f g : List ℕ → Request → Exec S FanOutResult) → fanned f ≡ fanned g → f ≡ g
  fanned-injective f g e = ap (λ (x : MountedHandler S). elim x [ bare _ ↦ f | fanned k ↦ k ]) e

  bare-ne-fanned :
      (f : Request → Exec S HandlerResult) (g : List ℕ → Request → Exec S FanOutResult)
      → ¬ (bare f ≡ fanned g)
  bare-ne-fanned f g e = cc

  wrapped_lem :
      (mutated : ServerTool) (tool : GoTool) (handler : Request → Exec S HandlerResult)
      (h : List ℕ → Request → Exec S FanOutResult)
      → (mount_converted coding resolver library mutated (tool, handler)).handler ≡ fanned h
      → (wrapped_handler coding resolver handler (read_only_of mutated) ≡ h)
        × ((mount_converted coding resolver library mutated (tool, handler)).tool.input_schema
            ≡ schema_for (read_only_of mutated) tool.input_schema)
  unfolding mount_converted wrap_fan_out
  wrapped_lem mutated tool handler h e =
      let wrapped_tool = wrap_fan_out coding resolver library (read_only_of mutated) tool handler in
      let bare_tool : Mounted S = record { tool = tool; handler = bare handler } in
      elim (Bool-cases mutated.is_cluster_aware) [
        | inl aware ↦ (
          fanned-injective _ h
              (subst (λ b. (if b then wrapped_tool else bare_tool).handler ≡ fanned h) aware e),
          subst
              (λ b.
                (if b then wrapped_tool else bare_tool).tool.input_schema
                ≡ schema_for (read_only_of mutated) tool.input_schema)
              (sym aware) refl,
        )
        | inr unaware ↦ absurd (
            bare-ne-fanned handler h
              (subst (λ b. (if b then wrapped_tool else bare_tool).handler ≡ fanned h) unaware e))
      ]

  guarded :
      (mutated : ServerTool) (tool : GoTool) (handler : Request → Exec S HandlerResult)
      (order : List ℕ) (req : Request) (s : S)
      → (wrapped_handler coding resolver handler (read_only_of mutated) order req s).1 ≢ s
      → (read_only_of mutated ≡ true)
        ⊎ (NamesFullTargets req
            × AsksForClusters (schema_for (read_only_of mutated) tool.input_schema))
  guarded mutated tool handler order req s changed = elim (Bool-cases (read_only_of mutated)) [
    | inl read_only ↦ inl read_only
    | inr writes ↦
        let (args, raw, targets, decoded, given, strings, full) =
          wrapped_handler_guard coding resolver handler order req s (
            subst (λ b. (wrapped_handler coding resolver handler b order req s).1 ≢ s) writes
              changed) in
        inr (
          record {
            args = args;
            raw = raw;
            targets = targets;
            decoded = decoded;
            given = given;
            strings = strings;
            full = full;
          },
          subst (λ b. AsksForClusters (schema_for b tool.input_schema)) (sym writes)
              (schema_for-AsksForClusters tool.input_schema),
        )
  ]

  -- Every mounted tool is what the mounting makes of a tool in one of the library's sets that does not
  -- list targets. A call of one that goes through the fan-out changes the state only if the library
  -- marks that very tool as read-only, or if "clusters" is given as a list of full targets, which the
  -- schema of the mounted tool then demands, without a "cluster" in it.
  pub mount_tools_guard :
      (m : Mounted S)
      → Elem m (mount_tools coding resolver library []).1
      → (h : List ℕ → Request → Exec S FanOutResult) → m.handler ≡ fanned h
      → (order : List ℕ) (req : Request) (s : S) → (h order req s).1 ≢ s
      → (from : IsFrom m) × ((read_only_of (mutate coding resolver library from.source) ≡ true)
          ⊎ (NamesFullTargets req × AsksForClusters m.tool.input_schema))
  mount_tools_guard m listed h is_h order req s changed =
      let from = All-Elem IsFrom _ m mount_tools-AllFrom listed in
      let (tool, handler) = from.converted in
      let mutated = mutate coding resolver library from.source in
      let (same, schema) =
        wrapped_lem mutated tool handler h
          (sym (ap (λ (x : Mounted S). x.handler) from.mounted) ∙ is_h) in
      let found = guarded mutated tool handler order req s (
        subst (λ (f : List ℕ → Request → Exec S FanOutResult). (f order req s).1 ≢ s) (sym same)
          changed) in
      (
        from,
        elim found [
          | inl read_only ↦ inl read_only
          | inr (names, asks) ↦ inr (
            names,
            subst AsksForClusters
                (sym schema ∙ sym (ap (λ (x : Mounted S). x.tool.input_schema) from.mounted)) asks,
          )
        ],
      )
