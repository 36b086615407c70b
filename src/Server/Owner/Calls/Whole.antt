-- ===== src/Server/Owner/Calls/Whole.antt =====
-- The parts of a call with nothing between them are the call.
use mathlib.Core.Path.{fun_ext}
use capi_shell_mcp.Base.{
  ℕ, suc, zero, GoString, none, some, Result, ok, err, Exec, bind, lift, continue, Option-cases,
  inl, inr, str_eq, sym, ap, ◌≡◌, ◌∙◌, refl,
}
use capi_shell_mcp.Cache.Laws.{read}
use capi_shell_mcp.Capi.Kube.{KubeApi, fetch_workload_kubeconfig}
use capi_shell_mcp.Config.{KubeconfigSource, AppConfig}
use capi_shell_mcp.Server.{ServerState, Outside, CachedKubeconfig, on_world}
use capi_shell_mcp.Server.Kubeconfig.{
  use_cached, transform_of, proxy_for, sshuttle_host_of, store_kubeconfig, fetch_kubeconfig,
  cached_kubeconfig,
}
use capi_shell_mcp.Server.Kubeconfig.Caching.{key_of, looked_up, cached_miss, cached_hit}
use capi_shell_mcp.Server.Owner.Calls.{
  Stage, looking, using, opening, fetching, ensuring, storing, returned, after, transformed,
  advance, times, outcome,
}

module _ {S A B D : Type 0} where
  continue_assoc :
      (r : Result A × S) (f : A → Exec S B) (g : B → Exec S D)
      → continue (continue r f) g ≡ continue r (λ a. bind (f a) g)
  continue_assoc (ok a, s) f g = refl
  continue_assoc (err e, s) f g = refl

  bind_assoc :
      (m : Exec S A) (f : A → Exec S B) (g : B → Exec S D)
      → bind (bind m f) g ≡ bind m (λ a. bind (f a) g)
  bind_assoc m f g = fun_ext (λ s. continue_assoc (m s) f g)

bind-cong :
    {S A B : Type 0} (m : Exec S A) (f g : A → Exec S B)
    → ((a : A) → f a ≡ g a)
    → bind m f ≡ bind m g
bind-cong m f g h = ap (λ k. bind m k) (fun_ext h)

module _ {W C O : Type 0} (api : KubeApi W C O) (out : Outside W C) (cfg : AppConfig)
    (src : KubeconfigSource) (ctx ns n : GoString) where
  returned_stays :
      (k : ℕ) (r : Result GoString) (s : ServerState W)
      → times api out cfg src ctx ns n k (returned r, s) ≡ (returned r, s)
  unfolding advance
  returned_stays zero r s = refl
  returned_stays (suc k) r s = returned_stays k r s

  after-continue :
      {A : Type 0} (k : ℕ) (r : Result A × ServerState W) (f : A → Stage C)
      (g : A → Exec (ServerState W) GoString)
      → ((a : A) (s : ServerState W)
          → times api out cfg src ctx ns n k (f a, s) ≡ outcome api out cfg src ctx ns n (g a s))
      → times api out cfg src ctx ns n k (after api out cfg r f)
        ≡ outcome api out cfg src ctx ns n (continue r g)
  unfolding after
  after-continue k (ok a, s) f g h = h a s
  after-continue k (err e, s) f g h = returned_stays k (err e) s

  abbrev store_it : CachedKubeconfig → Exec (ServerState W) GoString
  store_it = store_kubeconfig api out cfg (key_of api out cfg src ctx ns n)

  abbrev ensure_it : C → GoString → Exec (ServerState W) GoString
  ensure_it client kc =
      bind (proxy_for api out cfg (sshuttle_host_of api out cfg src) client ns n)
        λ target. store_it (record { kubeconfig = kc; proxy_target = target })

  storing_whole :
      (c : CachedKubeconfig) (s : ServerState W)
      → times api out cfg src ctx ns n 1 (storing c, s)
        ≡ outcome api out cfg src ctx ns n (store_it c s)
  unfolding advance store_kubeconfig
  storing_whole c s = refl

  ensuring_whole :
      (client : C) (kc : GoString) (s : ServerState W)
      → times api out cfg src ctx ns n 2 (ensuring client kc, s)
        ≡ outcome api out cfg src ctx ns n (ensure_it client kc s)
  unfolding advance
  ensuring_whole client kc s =
      after-continue 1 (proxy_for api out cfg (sshuttle_host_of api out cfg src) client ns n s) _ _
        (λ target t. storing_whole (record { kubeconfig = kc; proxy_target = target }) t)

  transformed_whole :
      (client : C) (r : Result GoString) (s : ServerState W)
      → times api out cfg src ctx ns n 2 (transformed api out cfg client r, s)
        ≡ outcome api out cfg src ctx ns n (bind (lift r) (ensure_it client) s)
  unfolding transformed
  transformed_whole client (ok kc) s = ensuring_whole client kc s
  transformed_whole client (err e) s = returned_stays 2 (err e) s

  fetching_whole :
      (client : C) (s : ServerState W)
      → times api out cfg src ctx ns n 3 (fetching client, s)
        ≡ outcome api out cfg src ctx ns n (
            bind
              (on_world (fetch_workload_kubeconfig api client ns n))
              (λ fetched. bind (lift (transform_of api out cfg fetched)) (ensure_it client))
              s)
  unfolding advance
  fetching_whole client s =
      after-continue 2 (on_world (fetch_workload_kubeconfig api client ns n) s) _ _
        (λ fetched t. transformed_whole client (transform_of api out cfg fetched) t)

  abbrev fetch_and_store : Exec (ServerState W) GoString
  fetch_and_store = bind (on_world (out.clients_for_context src ctx)) λ client.
      bind (on_world (fetch_workload_kubeconfig api client ns n))
        λ fetched. bind (lift (transform_of api out cfg fetched)) (ensure_it client)

  opening_whole :
      (s : ServerState W)
      → times api out cfg src ctx ns n 4 (opening, s)
        ≡ outcome api out cfg src ctx ns n (fetch_and_store s)
  unfolding advance
  opening_whole s =
      after-continue 3 (on_world (out.clients_for_context src ctx) s) _ _ fetching_whole

  fetched_and_stored : bind (fetch_kubeconfig api out cfg src ctx ns n) store_it ≡ fetch_and_store
  unfolding fetch_kubeconfig
  fetched_and_stored =
      bind_assoc (on_world (out.clients_for_context src ctx)) _ store_it
      ∙ bind-cong (on_world (out.clients_for_context src ctx)) _ _ λ client.
        bind_assoc (on_world (fetch_workload_kubeconfig api client ns n)) _ store_it
        ∙ bind-cong (on_world (fetch_workload_kubeconfig api client ns n)) _ _ λ fetched.
          bind_assoc (lift (transform_of api out cfg fetched)) _ store_it
          ∙ bind-cong (lift (transform_of api out cfg fetched)) _ _ λ kc.
            bind_assoc (proxy_for api out cfg (sshuttle_host_of api out cfg src) client ns n) _
              store_it

  looking_hit :
      (c : CachedKubeconfig) (s : ServerState W)
      → read (key_of api out cfg src ctx ns n) (out.clock s.world) s.kubeconfig ≡ some c
      → advance api out cfg src ctx ns n looking s ≡ (using c, s)
  unfolding advance
  looking_hit c s hit = rw (hit, advance)

  looking_miss :
      (s : ServerState W)
      → read (key_of api out cfg src ctx ns n) (out.clock s.world) s.kubeconfig ≡ none
      → advance api out cfg src ctx ns n looking s
        ≡ (opening, looked_up api out cfg (key_of api out cfg src ctx ns n) s)
  unfolding advance
  looking_miss s miss = rw (miss, advance)

  using_whole :
      (c : CachedKubeconfig) (s : ServerState W)
      → times api out cfg src ctx ns n 4 (using c, s)
        ≡ outcome api out cfg src ctx ns n (use_cached api out cfg c s)
  unfolding advance
  using_whole c s = refl

  -- Five parts are enough for every call, and with nothing between them they do what the call does.
  pub parts_are_whole :
      (s : ServerState W)
      → times api out cfg src ctx ns n 5 (looking, s)
        ≡ outcome api out cfg src ctx ns n (cached_kubeconfig api out cfg src ctx ns n s)
  parts_are_whole s =
      elim (Option-cases
        (read (key_of api out cfg src ctx ns n) (out.clock s.world) s.kubeconfig)) [
          | inr (c, hit) ↦
              ap (times api out cfg src ctx ns n 4) (looking_hit c s hit)
              ∙ using_whole c s
              ∙ ap (outcome api out cfg src ctx ns n)
                  (sym (cached_hit api out cfg src ctx ns n s c hit))
          | inl miss ↦
              let s0 = looked_up api out cfg (key_of api out cfg src ctx ns n) s in
              ap (times api out cfg src ctx ns n 4) (looking_miss s miss)
              ∙ opening_whole s0
              ∙ ap (outcome api out cfg src ctx ns n) (
                  ap (λ (m : Exec (ServerState W) GoString). m s0) (sym fetched_and_stored)
                  ∙ sym (cached_miss api out cfg src ctx ns n s miss))
        ]
