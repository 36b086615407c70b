-- ===== src/Server/Owner/Calls/Sound.antt =====
-- What calls return whose parts interleave.
use capi_shell_mcp.Base.{
  ℕ, GoString, str_eq, Lacks, List, [], ◌∷◌, All, All-append, All-get, All-set, lookup, some,
  Result, ok, err, get_elem?, Option-cases, inl, inr, sym, subst, ◌≡◌, refl, arith,
}
use capi_shell_mcp.Cache.Laws.{read}
use capi_shell_mcp.Capi.Keys.{colon}
use capi_shell_mcp.Capi.Kube.{KubeApi, fetch_workload_kubeconfig}
use capi_shell_mcp.Config.{KubeconfigSource, AppConfig}
use capi_shell_mcp.Server.{ServerState, Outside, on_world}
use capi_shell_mcp.Server.Kubeconfig.{transform_of, proxy_for, sshuttle_host_of, store_kubeconfig}
use capi_shell_mcp.Server.Kubeconfig.Caching.{key_of, use_cached_keeps, proxy_for_keeps}
use capi_shell_mcp.Server.Owner.{
  NamesHaveNoColon, HasPlainNames, IsOf, IsOwned, OwnsCache, get-AreOwned, set-AreOwned,
  found-IsOwned, fetch_workload-plain,
}
use capi_shell_mcp.Server.Owner.Access.{key_of-IsOf, use_cached-eq-ok, found_by_name}
use capi_shell_mcp.Server.Owner.Calls.{
  Stage, Call, looking, using, opening, fetching, ensuring, storing, returned, after, transformed,
  advance,
}
use capi_shell_mcp.Server.Owner.Calls.Interleave.{
  CallSystem, Happening, arrives, continues, world_changes, tunnels_change, lists_change, occur,
  run_all,
}

module _ {W C O : Type 0} (api : KubeApi W C O) (out : Outside W C) (cfg : AppConfig) where
  -- What a call has found belongs to the cluster that it was made for.
  module _ (src : KubeconfigSource) (ctx ns n : GoString) where
    abbrev IsSoundAt : Stage C → Type 0
    IsSoundAt looking = Unit {0}
    IsSoundAt opening = Unit {0}
    IsSoundAt (using c) = IsOwned api out cfg (key_of api out cfg src ctx ns n) c.kubeconfig
    IsSoundAt (fetching client) = (w : W) × ((out.clients_for_context src ctx w).0 ≡ ok client)
    IsSoundAt (ensuring client kc) =
        IsOf api out cfg src ctx ns n kc × Lacks colon ns × Lacks colon n
    IsSoundAt (storing c) =
        IsOf api out cfg src ctx ns n c.kubeconfig × Lacks colon ns × Lacks colon n
    IsSoundAt (returned r) =
        (kc : GoString)
        → r ≡ ok kc
        → Lacks colon ns
        → Lacks colon n
        → IsOf api out cfg src ctx ns n kc

    module _ (no_colon : NamesHaveNoColon api) (names : HasPlainNames cfg)
        (there : lookup src.name cfg.kubeconfigs ≡ some src) where
      after-IsSound :
          {A : Type 0} (r : Result A × ServerState W) (f : A → Stage C)
          → OwnsCache api out cfg r.1
          → ((a : A) → r.0 ≡ ok a → IsSoundAt (f a))
          → OwnsCache api out cfg (after api out cfg r f).1 × IsSoundAt (after api out cfg r f).0
      unfolding after
      after-IsSound (ok a, s) f v h = (v, h a refl)
      after-IsSound (err e, s) f v h = (v, λ kc g. absurd (cc))

      looking-IsSound :
          (s : ServerState W)
          → OwnsCache api out cfg s
          → OwnsCache api out cfg (advance api out cfg src ctx ns n looking s).1
            × IsSoundAt (advance api out cfg src ctx ns n looking s).0
      unfolding advance
      looking-IsSound s v =
          let key = key_of api out cfg src ctx ns n in
          elim (Option-cases (read key (out.clock s.world) s.kubeconfig)) [
            | inl miss ↦
                rw (miss, advance)
                  (get-AreOwned api out cfg key (out.clock s.world) s.kubeconfig v, tt)
            | inr (c, hit) ↦
                rw (hit, advance)
                  (v, found-IsOwned api out cfg key (out.clock s.world) s.kubeconfig c v hit)
          ]

      transformed-IsSound :
          (client : C) (opened_at w : W) (fetched : GoString) (r : Result GoString)
          → (out.clients_for_context src ctx opened_at).0 ≡ ok client
          → (fetch_workload_kubeconfig api client ns n w).0 ≡ ok fetched
          → transform_of api out cfg fetched ≡ r
          → IsSoundAt (transformed api out cfg client r)
      unfolding transformed
      transformed-IsSound client opened_at w fetched (err e) opened got made = λ kc h. absurd (cc)
      transformed-IsSound client opened_at w fetched (ok kc) opened got made =
          let (plain_ns, plain_n) =
            fetch_workload-plain api out cfg no_colon client ns n fetched w got in
          (
            record {
              client = client;
              opened_at = opened_at;
              opened = opened;
              fetched = fetched;
              fetched_at = w;
              was_fetched = got;
              transformed = made;
            },
            plain_ns,
            plain_n,
          )

      advance-IsSound :
          (stage : Stage C) (s : ServerState W)
          → OwnsCache api out cfg s
          → IsSoundAt stage
          → OwnsCache api out cfg (advance api out cfg src ctx ns n stage s).1
            × IsSoundAt (advance api out cfg src ctx ns n stage s).0
      unfolding advance store_kubeconfig
      advance-IsSound looking s v h = looking-IsSound s v
      advance-IsSound (using c) s v own = (
        subst (λ x. OwnsCache api out cfg (record s { kubeconfig = x }))
            (sym (use_cached_keeps api out cfg c s)) v,
        λ kc g plain_ns plain_n.
            subst (IsOf api out cfg src ctx ns n)
              (use_cached-eq-ok api out cfg no_colon names c kc s g)
              (key_of-IsOf api out cfg no_colon names src ctx ns n c.kubeconfig there plain_ns
                plain_n own),
      )
      advance-IsSound opening s v h =
          after-IsSound (on_world (out.clients_for_context src ctx) s) fetching v
            (λ client opened. (s.world, opened))
      advance-IsSound (fetching client) s v (opened_at, opened) =
          after-IsSound (on_world (fetch_workload_kubeconfig api client ns n) s)
            (λ fetched. transformed api out cfg client (transform_of api out cfg fetched)) v
            (λ fetched got.
              transformed-IsSound client opened_at s.world fetched
                (transform_of api out cfg fetched) opened got refl)
      advance-IsSound (ensuring client kc) s v h =
          let host = sshuttle_host_of api out cfg src in
          after-IsSound (proxy_for api out cfg host client ns n s)
            (λ target. storing (record { kubeconfig = kc; proxy_target = target }))
            (subst (λ x. OwnsCache api out cfg (record s { kubeconfig = x }))
              (sym (proxy_for_keeps api out cfg host client ns n s)) v)
            (λ target _. h)
      advance-IsSound (storing c) s v (is_of, plain_ns, plain_n) = (
        set-AreOwned api out cfg (key_of api out cfg src ctx ns n) c (out.clock s.world)
            s.kubeconfig v
            (record {
              src = src;
              ctx = ctx;
              ns = ns;
              n = n;
              is_key = refl;
              configured = there;
              plain_ns = plain_ns;
              plain_n = plain_n;
              is_of = is_of;
            }),
        λ kc g _ _. subst (IsOf api out cfg src ctx ns n) (ground arith) is_of,
      )
      advance-IsSound (returned r) s v h = (v, h)

  module _ (no_colon : NamesHaveNoColon api) (names : HasPlainNames cfg) where
    record IsSound (c : Call C) : Type 0 where
      configured : lookup c.src.name cfg.kubeconfigs ≡ some c.src
      at_stage : IsSoundAt c.src c.ctx c.ns c.n c.stage

    record AreSound (y : CallSystem W C) : Type 0 where
      owns : OwnsCache api out cfg y.server
      calls : All IsSound y.calls

    occur-AreSound :
        (h : Happening W) (y : CallSystem W C) → AreSound y → AreSound (occur api out cfg h y)
    unfolding occur
    occur-AreSound (arrives id) y v =
        elim (Option-cases (lookup id.kubeconfig_name cfg.kubeconfigs)) [
          | inl unknown ↦ rw (unknown, occur) v
          | inr (src, known) ↦
              rw (known, occur)
                (record {
                  owns = v.owns;
                  calls = All-append IsSound y.calls _ v.calls (
                    record {
                      configured =
                          found_by_name api out cfg no_colon names id.kubeconfig_name src known;
                      at_stage = tt;
                    },
                    tt,
                  );
                })
        ]
    occur-AreSound (continues i) y v = elim (Option-cases (get_elem? y.calls i)) [
      | inl nothing ↦ rw (nothing, occur) v
      | inr (c, there) ↦
          let sound = All-get IsSound y.calls i c v.calls there in
          let (kept, next) =
            advance-IsSound c.src c.ctx c.ns c.n no_colon names sound.configured c.stage y.server
              v.owns sound.at_stage in
          rw (there, occur)
            (record {
              owns = kept;
              calls =
                  All-set IsSound y.calls i _ v.calls
                    (record { configured = sound.configured; at_stage = next });
            })
    ]
    occur-AreSound (world_changes f) y v = record { owns = v.owns; calls = v.calls }
    occur-AreSound (tunnels_change f) y v = record { owns = v.owns; calls = v.calls }
    occur-AreSound (lists_change f) y v = record { owns = v.owns; calls = v.calls }

    run_all-AreSound :
        (hs : List (Happening W)) (y : CallSystem W C)
        → AreSound y
        → AreSound (run_all api out cfg hs y)
    unfolding run_all
    run_all-AreSound [] y v = v
    run_all-AreSound (h ∷ hs) y v =
        run_all-AreSound hs (occur api out cfg h y) (occur-AreSound h y v)

    -- Let no secret be found under a name with a colon, and no kubeconfig be configured under one.
    -- However the parts of the calls interleave, from a state with no call and an empty cache of
    -- kubeconfigs, and whatever changes the world, the tunnels and the lists of clusters meanwhile: a
    -- kubeconfig that a call returns is of the cluster that the call was made for, if the namespace and
    -- the name of this cluster have no colon.
    pub calls_return_own :
        (hs : List (Happening W)) (s : ServerState W) (i : ℕ) (c : Call C) (kc : GoString)
        → s.kubeconfig.store ≡ []
        → get_elem? (run_all api out cfg hs (record { server = s; calls = [] })).calls i ≡ some c
        → c.stage ≡ returned (ok kc)
        → Lacks colon c.ns
        → Lacks colon c.n
        → IsOf api out cfg c.src c.ctx c.ns c.n kc
    unfolding lookup
    calls_return_own hs s i c kc empty there done plain_ns plain_n =
        let start : AreSound (record { server = s; calls = [] }) = record {
          owns = λ key e found. absurd (ground (arith, empty, found));
          calls = tt;
        } in
        let sound =
          All-get IsSound (run_all api out cfg hs (record { server = s; calls = [] })).calls i c
            (run_all-AreSound hs (record { server = s; calls = [] }) start).calls there in
        subst (IsSoundAt c.src c.ctx c.ns c.n) done sound.at_stage kc refl plain_ns plain_n
