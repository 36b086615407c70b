-- ===== src/Capi/Kube/Environment.antt =====
-- The variables of `FetchOpenStackEnv`.
use capi_shell_mcp.Base.{
  GoString, [], Map, lookup, lookup-insert, str_eq, some, is_empty_iff, ◌≢◌, arith,
}
use capi_shell_mcp.Capi.Kube.{Cloud, set_env, cloud_env}

-- No variable has the empty value.
abbrev pub HasValues : Map GoString GoString → Type 0
HasValues env = (k : GoString) → lookup k env ≢ some []

set_env-HasValues :
    (k v : GoString) (env : Map GoString GoString) → HasValues env → HasValues (set_env k v env)
unfolding set_env
set_env-HasValues k v env h j = ground (arith, h j, lookup-insert k j v env, is_empty_iff v)

pub nothing-HasValues : HasValues []
unfolding lookup
nothing-HasValues k h = absurd (ground arith)

-- No variable of the environment has an empty value, whatever the entry of clouds.yaml says: a field
-- that is missing or empty sets none.
pub cloud_env-HasValues : (cloud : Cloud) → HasValues (cloud_env cloud)
unfolding cloud_env
cloud_env-HasValues cloud = go _ _ _ (
    go _ _ _ (
      go _ _ _ (
        go _ _ _ (
          go _ _ _ (
            go _ _ _ (
              go _ _ _ (
                go _ _ _
                  (go _ _ _ (go _ _ _ (go _ _ _ (go _ _ _ (go _ _ _ nothing-HasValues))))))))))))
  where
    go :
        (k v : GoString) (env : Map GoString GoString) → HasValues env → HasValues (set_env k v env)
    go = set_env-HasValues
