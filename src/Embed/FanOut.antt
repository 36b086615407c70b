-- ===== src/Embed/FanOut.antt =====
-- internal/embed/fanout.go. The raw JSON values of arguments are of a type `J` with the coding that
-- the program uses; a tool of kubernetes-mcp-server is a handler on the state `S`. What a result's
-- text is made from is kept as data, and the goroutines run in the order of the argument `order`.
pub mod Guard
pub mod Isolation
use capi_shell_mcp.Base.{
  ℕ, GoString, lit, List, [], ◌∷◌, Map, lookup, insert, delete, str_eq, Option, none, some, Result,
  ok, err, GoError, wrapped, Exec, bind, pure, if◌then◌else◌, Bool, true, false, not, contains,
  fan_out, is_empty, has_empty_text, map_error, ◌||◌,
}
use capi_shell_mcp.Capi.Target.{CapiCluster, TargetParts, parse_target, cluster_of}
use capi_shell_mcp.Capi.Resolve.{resolve_cluster_patterns}
use capi_shell_mcp.Embed.{TargetResolver}

abbrev pub clusters_parameter_name : GoString
clusters_parameter_name = lit "clusters"

abbrev pub target_parameter_name : GoString
target_parameter_name = lit "cluster"

pub record Coding (J : Type 0) : Type 0 where
  -- The arguments of a call, absent ones as the empty map.
  pub decode_args : GoString → Result (Map GoString J)
  pub encode_args : Map GoString J → Result GoString
  pub decode_strings : J → Result (List GoString)
  pub encode_string : GoString → J

-- A content of a result: a text or something else.
pub data Content : Type 0 where
  text : GoString → Content
  other : Content

pub record HandlerResult : Type 0 where
  pub content : List Content
  pub is_error : Bool

-- The session, the name and the metadata of a request are passed on as they are.
pub record Request : Type 0 where
  pub name : GoString
  pub arguments : GoString

pub record PerClusterToolResult : Type 0 where
  pub cluster : GoString
  pub text : GoString
  pub is_error : Bool
  pub error : Option GoError

pub data FanOutText : Type 0 where
  clusters_is_required clusters_must_be_strings entries_must_be_non_empty : FanOutText
  message : GoError → FanOutText
  results_of : List PerClusterToolResult → FanOutText

pub record FanOutResult : Type 0 where
  pub text : FanOutText
  pub is_error : Bool

abbrev pub error_result : FanOutText → FanOutResult
error_result t = record { text = t; is_error = true }

-- A missing argument object is the empty map.
abbrev pub arguments_of : {J : Type 0} → Coding J → GoString → Result (Map GoString J)
arguments_of coding raw = if is_empty raw then ok [] else coding.decode_args raw

unfoldable pub first_text : HandlerResult → GoString
first_text r = elim r.content [ [] ↦ [] | c ∷ _ ↦ elim c [ text t ↦ t | other ↦ [] ] ]

abbrev pub has_failed : PerClusterToolResult → Bool
has_failed r = elim r.error [ none ↦ r.is_error | some e ↦ not (has_empty_text e) || r.is_error ]

unfoldable pub any_failed : List PerClusterToolResult → Bool
any_failed [] = false
any_failed (r ∷ rs) = if has_failed r then true else any_failed rs

-- The known targets that parse.
unfoldable pub known_of : List GoString → List CapiCluster
known_of [] = []
known_of (t ∷ ts) =
    let rest = known_of ts in elim (parse_target t) [ err _ ↦ rest | ok p ↦ cluster_of p ∷ rest ]

module _ {S J : Type 0} (coding : Coding J) (resolver : TargetResolver S)
    (handler : Request → Exec S HandlerResult) where
  unfoldable pub list_known_clusters : Exec S (List CapiCluster)
  unfolding known_of
  list_known_clusters = bind resolver.list_targets λ ts. pure (known_of ts)

  abbrev pub result_from : GoString → Result HandlerResult → PerClusterToolResult
  result_from target (err e) = record {
    cluster = target;
    text = [];
    is_error = false;
    error = some e;
  }
  result_from target (ok r) = record {
    cluster = target;
    text = first_text r;
    is_error = r.is_error;
    error = none;
  }

  -- The arguments of the call for one target: "clusters" is replaced by "cluster".
  abbrev pub synthesised : Map GoString J → GoString → Map GoString J
  synthesised args target =
      insert target_parameter_name (coding.encode_string target)
        (delete clusters_parameter_name args)

  unfoldable pub call_one_target :
      Request → Map GoString J → GoString → S → PerClusterToolResult × S
  call_one_target req args target s = elim (coding.encode_args (synthesised args target)) [
    | err e ↦ (result_from target (err e), s)
    | ok raw ↦
        let (r, s') = handler (record req { arguments = raw }) s in (result_from target r, s')
  ]

  abbrev pub no_result : PerClusterToolResult
  no_result = record { cluster = []; text = []; is_error = false; error = none }

  -- An error of the decoding is dropped, which leaves the empty map.
  abbrev pub or_no_args : Result (Map GoString J) → Map GoString J
  or_no_args (ok args) = args
  or_no_args (err e) = []

  unfoldable pub run_fan_out : Request → List GoString → List ℕ → S → FanOutResult × S
  run_fan_out req targets order s =
      let args = or_no_args (arguments_of coding req.arguments) in
      let (results, s') = fan_out no_result (call_one_target req args) targets order s in
      (record { text = results_of results; is_error = any_failed results }, s')

  -- After the argument "clusters" was read.
  unfoldable pub fan_out_over :
      Bool → Request → List ℕ → Result (List GoString) → Exec S FanOutResult
  fan_out_over read_only req order (err e) s = (ok (error_result clusters_must_be_strings), s)
  fan_out_over read_only req order (ok []) s =
      let (r, s') = run_fan_out req [] order s in (ok r, s')
  fan_out_over read_only req order (ok (p ∷ ps)) s =
      if contains (p ∷ ps) []
      then (ok (error_result entries_must_be_non_empty), s)
      else (let (r, s1) = resolve_cluster_patterns (p ∷ ps) list_known_clusters (not read_only) s in
          elim r [
            | err e ↦ (ok (error_result (message e)), s1)
            | ok targets ↦ (let (x, s2) = run_fan_out req targets order s1 in (ok x, s2))
          ])

  -- The handler that `wrapFanOut` returns.
  unfoldable pub wrapped_handler : Bool → List ℕ → Request → Exec S FanOutResult
  wrapped_handler read_only order req s = elim (arguments_of coding req.arguments) [
    | err e ↦ (err (wrapped (lit "embed: unmarshaling arguments") e), s)
    | ok args ↦ elim (lookup clusters_parameter_name args) [
      | some raw ↦ fan_out_over read_only req order (coding.decode_strings raw) s
      | none ↦
          if read_only
          then bind resolver.list_targets
              (λ all t. let (r, t') = run_fan_out req all order t in (ok r, t')) s
          else (ok (error_result clusters_is_required), s)
    ]
  ]
