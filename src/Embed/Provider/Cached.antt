-- ===== src/Embed/Provider/Cached.antt =====
-- A target's manager is made once.
use capi_shell_mcp.Base.{
  GoError, err, GoString, lookup, lookup-insert, str_eq, str_beq_iff, none, some, ok,
  unknown_target, with_error, ◌≡◌, arith, Option-cases, inl, inr, continue-eq-ok, continue, sym,
  ◌∙◌, List, [], ◌∷◌, Map, insert, str_beq, Bool-cases, Option, Result,
}
use capi_shell_mcp.Embed.{TargetResolver}
use capi_shell_mcp.Embed.Provider.{
  Library, CapiProvider, on_resolver, build_manager, store_manager, manager_for_target, get_targets,
  reload_config,
}

module _ {S R G M : Type 0} (library : Library R G M) (resolver : TargetResolver S)
    (target : GoString) where
  pub found :
      (mgr : M) (p : CapiProvider S G M)
      → lookup target p.managers ≡ some mgr
      → manager_for_target library resolver target p ≡ (ok mgr, p)
  unfolding manager_for_target
  found mgr p h = rw (h, manager_for_target)

  pub not_found :
      (p : CapiProvider S G M)
      → lookup target p.managers ≡ none
      → manager_for_target library resolver target p
        ≡ continue
            (with_error
              (unknown_target target)
              (on_resolver library resolver (resolver.resolve_target target) p))
            (λ kubeconfig q.
              continue
                (build_manager library resolver target kubeconfig q.cfg, q)
                (store_manager library resolver target))
  unfolding manager_for_target
  not_found p h = rw (h, manager_for_target)

  store_lookup :
      (made mgr : M) (p q : CapiProvider S G M)
      → store_manager library resolver target made p ≡ (ok mgr, q)
      → lookup target q.managers ≡ some mgr
  unfolding store_manager
  store_lookup made mgr p q h =
      ground (arith, lookup-insert target target made p.managers, str_beq_iff target target)

  stored :
      (mgr : M) (p q : CapiProvider S G M)
      → manager_for_target library resolver target p ≡ (ok mgr, q)
      → lookup target q.managers ≡ some mgr
  stored mgr p q h = elim (Option-cases (lookup target p.managers)) [
    | inl miss ↦
        let (kubeconfig, resolved, built) =
          continue-eq-ok
            (with_error (unknown_target target)
              (on_resolver library resolver (resolver.resolve_target target) p))
            _ (sym (not_found p miss) ∙ h) in
        let r =
          (with_error (unknown_target target)
            (on_resolver library resolver (resolver.resolve_target target) p)).1 in
        let (made, _, put) =
          continue-eq-ok (build_manager library resolver target kubeconfig r.cfg, r)
            (store_manager library resolver target) built in
        store_lookup made mgr r q put
    | inr (old, hit) ↦
        let same : manager_for_target library resolver target p ≡ (ok old, p) = found old p hit in
        ground arith
  ]

  -- A call that fails leaves the managers as they were.
  pub manager_for_target_fails :
      (e : GoError) (p : CapiProvider S G M)
      → (manager_for_target library resolver target p).0 ≡ err e
      → (manager_for_target library resolver target p).1.managers ≡ p.managers
  unfolding manager_for_target
  manager_for_target_fails e p h = ground arith

-- What may be done after a call: calls for this and other targets, each as a whole, the listing of the
-- targets, another configuration, and any change of the resolver's state.
pub data LaterUse (S G : Type 0) : Type 0 where
  calls : GoString → LaterUse S G
  lists : LaterUse S G
  reloads : Option G → LaterUse S G
  resolver_changes : (S → S) → LaterUse S G

module _ {S R G M : Type 0} (library : Library R G M) (resolver : TargetResolver S) where
  unfoldable pub later_use : LaterUse S G → CapiProvider S G M → CapiProvider S G M
  later_use (calls t) p = (manager_for_target library resolver t p).1
  later_use lists p = (get_targets library resolver p).1
  later_use (reloads c) p = (reload_config library resolver c p).1
  later_use (resolver_changes f) p = record p { resolver_state = f p.resolver_state }

  unfoldable pub later_uses : List (LaterUse S G) → CapiProvider S G M → CapiProvider S G M
  unfolding later_use
  later_uses [] p = p
  later_uses (u ∷ us) p = later_uses us (later_use u p)

  module _ (target : GoString) (mgr : M) where
    stored_other :
        (t : GoString) (made : M) (ms : Map GoString M)
        → lookup t ms ≡ none
        → lookup target ms ≡ some mgr
        → lookup target (insert t made ms) ≡ some mgr
    stored_other t made ms miss hit = elim (Bool-cases (str_beq t target)) [
      | inl equal ↦ let same : t ≡ target = (str_beq_iff t target).0 equal in absurd (ground arith)
      | inr other ↦ ground (arith, lookup-insert t target made ms)
    ]

    built_keeps :
        (t : GoString) (b : Result M) (p : CapiProvider S G M)
        → lookup t p.managers ≡ none
        → lookup target p.managers ≡ some mgr
        → lookup target (continue (b, p) (store_manager library resolver t)).1.managers ≡ some mgr
    unfolding store_manager
    built_keeps t (ok made) p miss hit = stored_other t made p.managers miss hit
    built_keeps t (err e) p miss hit = hit

    resolved_keeps :
        (t : GoString) (r : Result GoString × S) (p : CapiProvider S G M)
        → lookup t p.managers ≡ none
        → lookup target p.managers ≡ some mgr
        → lookup target
            (continue
              (with_error (unknown_target t) (on_resolver library resolver (λ _. r) p))
              (λ kc q.
                continue
                  (build_manager library resolver t kc q.cfg, q)
                  (store_manager library resolver t))).1.managers
          ≡ some mgr
    resolved_keeps t (ok kc, s) p miss hit =
        built_keeps t (build_manager library resolver t kc p.cfg) (record p { resolver_state = s })
          miss hit
    resolved_keeps t (err e, s) p miss hit = hit

    call_keeps :
        (t : GoString) (p : CapiProvider S G M)
        → lookup target p.managers ≡ some mgr
        → lookup target (manager_for_target library resolver t p).1.managers ≡ some mgr
    call_keeps t p hit = elim (Option-cases (lookup t p.managers)) [
      | inr (old, there) ↦ rw (found library resolver t old p there) hit
      | inl miss ↦
          rw (not_found library resolver t p miss)
            (resolved_keeps t (resolver.resolve_target t p.resolver_state) p miss hit)
    ]

    uses_keep :
        (us : List (LaterUse S G)) (p : CapiProvider S G M)
        → lookup target p.managers ≡ some mgr
        → lookup target (later_uses us p).managers ≡ some mgr
    unfolding later_uses get_targets reload_config
    uses_keep [] p hit = hit
    uses_keep (calls t ∷ us) p hit =
        uses_keep us (manager_for_target library resolver t p).1 (call_keeps t p hit)
    uses_keep (lists ∷ us) p hit = uses_keep us (get_targets library resolver p).1 hit
    uses_keep (reloads none ∷ us) p hit = uses_keep us p hit
    uses_keep (reloads (some c) ∷ us) p hit = uses_keep us (record p { cfg = c }) hit
    uses_keep (resolver_changes f ∷ us) p hit =
        uses_keep us (record p { resolver_state = f p.resolver_state }) hit

    -- If no calls overlap: once a call for a target has given a manager, a call for it gives the same
    -- one after any later calls for this and other targets, listings of the targets, new
    -- configurations and changes of the resolver's state; and it changes nothing, so that the target
    -- is not resolved again.
    pub manager_for_target_once :
        (p q : CapiProvider S G M) (later : List (LaterUse S G))
        → manager_for_target library resolver target p ≡ (ok mgr, q)
        → manager_for_target library resolver target (later_uses later q)
          ≡ (ok mgr, later_uses later q)
    manager_for_target_once p q later h =
        found library resolver target mgr (later_uses later q)
          (uses_keep later q (stored library resolver target mgr p q h))
