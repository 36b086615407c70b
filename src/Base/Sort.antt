-- ===== src/Base/Sort.antt =====
-- slices.Sort and sort.Strings.
use mathlib.Core.Bool.{Bool, true, false, ◌||◌, ◌&&◌}
use mathlib.Core.List.{List, [], ◌∷◌}
use capi_shell_mcp.Base.Tests.{ltb, nat_beq, if◌then◌else◌}
use capi_shell_mcp.Base.Text.{GoString}

-- s <= t on strings; the order of UTF-8 bytes is that of the code points.
unfoldable pub str_leb : GoString → GoString → Bool
str_leb [] t = true
str_leb (c ∷ s) [] = false
str_leb (c ∷ s) (d ∷ t) = ltb c d || (nat_beq c d && str_leb s t)

unfoldable pub insert_sorted : GoString → List GoString → List GoString
unfolding str_leb
insert_sorted s [] = s ∷ []
insert_sorted s (t ∷ ts) =
    let later = insert_sorted s ts in if str_leb s t then s ∷ t ∷ ts else t ∷ later

unfoldable pub sort_strings : List GoString → List GoString
unfolding insert_sorted
sort_strings [] = []
sort_strings (s ∷ ss) = insert_sorted s (sort_strings ss)
