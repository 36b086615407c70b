-- ===== src/Server/Owner/Access.antt =====
-- The kubeconfig that a tool gets for a cluster.
use capi_shell_mcp.Base.{
  GoString, str_eq, Lacks, lookup, none, some, Result, ok, err, continue, succeeded_with,
  Option-cases, inl, inr, subst, sym, ap, ◌≡◌, ◌≢◌, ◌∙◌, refl, arith,
}
use capi_shell_mcp.Cache.Laws.{read}
use capi_shell_mcp.Capi.Keys.{colon, kubeconfig_key-injective}
use capi_shell_mcp.Capi.Kube.{KubeApi}
use capi_shell_mcp.Capi.Target.{TargetParts, parse_target}
use capi_shell_mcp.Config.{KubeconfigSource, AppConfig}
use capi_shell_mcp.Server.{ServerState, Outside, CachedKubeconfig}
use capi_shell_mcp.Server.Kubeconfig.{
  use_cached, store_kubeconfig, fetch_kubeconfig, cached_kubeconfig, resolve_target,
}
use capi_shell_mcp.Server.Kubeconfig.Caching.{
  key_of, looked_up, cached_miss, cached_hit, fetch_keeps, use_cached_keeps,
}
use capi_shell_mcp.Server.Owner.{
  NamesHaveNoColon, HasPlainNames, IsOf, IsOwned, AreOwned, OwnsCache, get-AreOwned, set-AreOwned,
  found-IsOwned, fetch_kubeconfig-IsOf,
}

module _ {W C O : Type 0} (api : KubeApi W C O) (out : Outside W C) (cfg : AppConfig)
    (no_colon : NamesHaveNoColon api) (names : HasPlainNames cfg) where
  -- Entries under the key of a cluster are of that cluster.
  pub key_of-IsOf :
      (src : KubeconfigSource) (ctx ns n kc : GoString)
      → lookup src.name cfg.kubeconfigs ≡ some src
      → Lacks colon ns
      → Lacks colon n
      → IsOwned api out cfg (key_of api out cfg src ctx ns n) kc
      → IsOf api out cfg src ctx ns n kc
  key_of-IsOf src ctx ns n kc there plain_ns plain_n own =
      let (same_name, same_ctx, same_ns, same_n) =
        kubeconfig_key-injective src.name own.src.name ctx own.ctx ns own.ns n own.n
          (
            names.plain src.name src there,
            (
              names.plain own.src.name own.src own.configured,
              (plain_ns, (own.plain_ns, (plain_n, (own.plain_n, tt)))),
            ),
          )
          own.is_key in
      let same_src : own.src ≡ src = ground (arith, there, own.configured, same_name) in
      subst (λ (x : KubeconfigSource). IsOf api out cfg x ctx ns n kc) same_src
        (subst (λ (x : GoString). IsOf api out cfg own.src x ns n kc) (sym same_ctx)
          (subst (λ (x : GoString). IsOf api out cfg own.src own.ctx x n kc) (sym same_ns)
            (subst (λ (x : GoString). IsOf api out cfg own.src own.ctx own.ns x kc) (sym same_n)
              own.is_of)))

  pub use_cached-eq-ok :
      (c : CachedKubeconfig) (kc : GoString) (s : ServerState W)
      → (use_cached api out cfg c s).0 ≡ ok kc
      → c.kubeconfig ≡ kc
  unfolding use_cached
  use_cached-eq-ok c kc s h = ground arith

  -- A call for a configured source.
  module _ (src : KubeconfigSource) (ctx ns n : GoString)
      (there : lookup src.name cfg.kubeconfigs ≡ some src) where
    stored-IsOwned :
        (r : Result CachedKubeconfig × ServerState W)
        → OwnsCache api out cfg r.1
        → ((c : CachedKubeconfig)
            → r.0 ≡ ok c
            → IsOf api out cfg src ctx ns n c.kubeconfig × Lacks colon ns × Lacks colon n)
        → OwnsCache api out cfg
            (continue r (store_kubeconfig api out cfg (key_of api out cfg src ctx ns n))).1
          × ((kc : GoString)
              → (continue r (store_kubeconfig api out cfg (key_of api out cfg src ctx ns n))).0
                ≡ ok kc
              → IsOf api out cfg src ctx ns n kc)
    unfolding store_kubeconfig
    stored-IsOwned (err e, s) v own = (v, λ kc h. absurd (cc))
    stored-IsOwned (ok c, s) v own =
        let (is_of, plain_ns, plain_n) = own c refl in
        (
          set-AreOwned api out cfg (key_of api out cfg src ctx ns n) c (out.clock s.world)
              s.kubeconfig v
              (record {
                src = src;
                ctx = ctx;
                ns = ns;
                n = n;
                is_key = refl;
                configured = there;
                plain_ns = plain_ns;
                plain_n = plain_n;
                is_of = is_of;
              }),
          λ kc h. subst (IsOf api out cfg src ctx ns n) (ground arith) is_of,
        )

    pub cached_kubeconfig-IsOf :
        (s : ServerState W)
        → OwnsCache api out cfg s
        → OwnsCache api out cfg (cached_kubeconfig api out cfg src ctx ns n s).1
          × ((kc : GoString)
              → Lacks colon ns
              → Lacks colon n
              → (cached_kubeconfig api out cfg src ctx ns n s).0 ≡ ok kc
              → IsOf api out cfg src ctx ns n kc)
    cached_kubeconfig-IsOf s v =
        let key = key_of api out cfg src ctx ns n in
        elim (Option-cases (read key (out.clock s.world) s.kubeconfig)) [
          | inr (c, hit) ↦ rw (cached_hit api out cfg src ctx ns n s c hit) (
            subst (AreOwned api out cfg) (sym (use_cached_keeps api out cfg c s)) v,
            λ kc plain_ns plain_n h.
                subst (IsOf api out cfg src ctx ns n) (use_cached-eq-ok c kc s h) (
                  key_of-IsOf src ctx ns n c.kubeconfig there plain_ns plain_n
                    (found-IsOwned api out cfg key (out.clock s.world) s.kubeconfig c v hit)),
          )
          | inl miss ↦
              let s0 = looked_up api out cfg key s in
              let r = fetch_kubeconfig api out cfg src ctx ns n s0 in
              let v0 = get-AreOwned api out cfg key (out.clock s.world) s.kubeconfig v in
              let (kept, is_of) =
                stored-IsOwned r
                  (subst (AreOwned api out cfg) (sym (fetch_keeps api out cfg src ctx ns n s0)) v0)
                  (λ c h.
                    fetch_kubeconfig-IsOf api out cfg no_colon src ctx ns n c s0 r.1
                      (succeeded_with r c h)) in
              rw (cached_miss api out cfg src ctx ns n s miss) (kept, λ kc _ _ h. is_of kc h)
        ]

  -- A configured source is found under its own name.
  pub found_by_name :
      (n : GoString) (src : KubeconfigSource)
      → lookup n cfg.kubeconfigs ≡ some src
      → lookup src.name cfg.kubeconfigs ≡ some src
  found_by_name n src known =
      subst (λ (x : GoString). lookup x cfg.kubeconfigs ≡ some src) (sym (names.named n src known))
        known

  resolves_known :
      (t : GoString) (id : TargetParts) (src : KubeconfigSource) (s : ServerState W)
      → parse_target t ≡ ok id
      → lookup id.kubeconfig_name cfg.kubeconfigs ≡ some src
      → resolve_target api out cfg t s
        ≡ cached_kubeconfig api out cfg src id.context id.namespace id.name s
  unfolding resolve_target
  resolves_known t id src s parsed known = ground (arith, parsed, known)

  resolves_unknown :
      (t : GoString) (id : TargetParts) (kc : GoString) (s : ServerState W)
      → parse_target t ≡ ok id
      → lookup id.kubeconfig_name cfg.kubeconfigs ≡ none
      → (resolve_target api out cfg t s).0 ≢ ok kc
  unfolding resolve_target
  resolves_unknown t id kc s parsed unknown h = absurd (ground (arith, parsed, unknown, h))

  -- A target that a tool resolves gives a kubeconfig of the cluster that it names.
  pub resolve_target-IsOf :
      (t : GoString) (id : TargetParts) (kc : GoString) (s : ServerState W)
      → OwnsCache api out cfg s
      → parse_target t ≡ ok id
      → Lacks colon id.namespace
      → Lacks colon id.name
      → (resolve_target api out cfg t s).0 ≡ ok kc
      → (src : KubeconfigSource) × (lookup id.kubeconfig_name cfg.kubeconfigs ≡ some src)
        × IsOf api out cfg src id.context id.namespace id.name kc
  resolve_target-IsOf t id kc s v parsed plain_ns plain_n h =
      elim (Option-cases (lookup id.kubeconfig_name cfg.kubeconfigs)) [
        | inl unknown ↦ absurd (resolves_unknown t id kc s parsed unknown h)
        | inr (src, known) ↦
            let same = resolves_known t id src s parsed known in
            (
              src,
              known,
              (cached_kubeconfig-IsOf src id.context id.namespace id.name
                    (found_by_name id.kubeconfig_name src known) s v).1
                  kc plain_ns plain_n
                  (ap (λ (x : Result GoString × ServerState W). x.0) (sym same) ∙ h),
            )
      ]
