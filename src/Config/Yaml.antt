-- ===== src/Config/Yaml.antt =====
-- The values that yaml.v3 decodes into an `any`, and the type assertions of
-- internal/config/config.go on them.
use capi_shell_mcp.Base.{GoString, List, [], ◌∷◌, Map, str_eq, Option, none, some}
use capi_shell_mcp.Config.{ℤ}

mutual
  -- `int64` is for a number that an `int` cannot hold, which the 64-bit program never meets; a float64
  -- is given by its whole part. `other` is any other value, such as a Boolean or a time.
  pub data Yaml : Type 0 where
    text : GoString → Yaml
    int int64 float64 : ℤ → Yaml
    list : Items → Yaml
    object : Fields → Yaml
    other : Yaml

  pub data Items : Type 0 where
    nil : Items
    item : Yaml → Items → Items

  pub data Fields : Type 0 where
    end : Fields
    field : GoString → Yaml → Fields → Fields

-- map[string]any
unfoldable pub map_of : Fields → Map GoString Yaml
map_of end = []
map_of (field k v fs) = (k, v) ∷ map_of fs

-- []any
unfoldable pub list_of : Items → List Yaml
list_of nil = []
list_of (item v vs) = v ∷ list_of vs

-- v.(string) and its kin on m[k], which is nil for a missing key.
abbrev pub as_text : Option Yaml → Option GoString
as_text (some (text s)) = some s
as_text _ = none

abbrev pub as_object : Option Yaml → Option (Map GoString Yaml)
as_object (some (object fs)) = some (map_of fs)
as_object _ = none

abbrev pub as_list : Option Yaml → Option (List Yaml)
as_list (some (list vs)) = some (list_of vs)
as_list _ = none

-- `toInt`
abbrev pub to_int : Option Yaml → Option ℤ
to_int (some (int n)) = some n
to_int (some (int64 n)) = some n
to_int (some (float64 n)) = some n
to_int _ = none
