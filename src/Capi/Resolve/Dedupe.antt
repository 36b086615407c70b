-- ===== src/Capi/Resolve/Dedupe.antt =====
-- The loops over `seen` and `out` keep the first of equal texts.
use capi_shell_mcp.Base.{
  List, [], ◌∷◌, ◌++◌, GoString, Map, lookup, insert, lookup-insert, str_eq, str_beq, str_beq_iff,
  ◌≡◌, refl, Bool, true, if◌then◌else◌, arith, contains, contains-append, without, nub,
  without-append, without-nil, without-without_member, Bool-cases, inl, inr, append_assoc,
  append-nil, ◌∙◌, sym,
}
use capi_shell_mcp.Capi.Resolve.{
  Gathered, nothing_gathered, is_seen, add_one, add_new, dedupe_preserve_order,
}

-- `seen` holds exactly the texts of `out`, as both loops keep it.
pub record IsConsistent (g : Gathered) : Type 0 where
  pub seen_eq : (t : GoString) → is_seen t g.seen ≡ contains g.out t

pub nothing_gathered-IsConsistent : IsConsistent nothing_gathered
unfolding is_seen lookup contains
nothing_gathered-IsConsistent = record { seen_eq = λ t. refl }

is_seen-insert :
    (t s : GoString) (m : Map GoString Bool)
    → is_seen t (insert s true m) ≡ (if str_beq s t then true else is_seen t m)
unfolding is_seen
is_seen-insert t s m = ground (arith, lookup-insert s t true m)

contains_one : (t s : GoString) → contains (t ∷ []) s ≡ str_beq s t
unfolding contains
contains_one t s = ground arith

add_one-IsConsistent : (t : GoString) (g : Gathered) → IsConsistent g → IsConsistent (add_one t g)
unfolding add_one
add_one-IsConsistent t g h = elim (Bool-cases (is_seen t g.seen)) [
  | inl old ↦ rw old h
  | inr new ↦ rw new (record {
    seen_eq = λ s. ground (
      arith,
      h.seen_eq s,
      is_seen-insert s t g.seen,
      contains-append g.out (t ∷ []) s,
      contains_one t s,
      str_beq_iff s t,
      str_beq_iff t s,
    );
  })
]

add_one-out :
    (t : GoString) (us : List GoString) (g : Gathered)
    → IsConsistent g
    → (add_one t g).out ++ without (add_one t g).out us
      ≡ g.out ++ without g.out (t ∷ without (t ∷ []) us)
unfolding add_one without
add_one-out t us g h = ground (
  arith,
  h.seen_eq t,
  without-append g.out (t ∷ []) us,
  without-without_member g.out t us,
  append_assoc g.out (t ∷ []) (without g.out (without (t ∷ []) us)),
)

-- What is appended: the first occurrences of the texts that were not there.
add_new-out :
    (ts : List GoString) (g : Gathered)
    → IsConsistent g
    → IsConsistent (add_new ts g) × ((add_new ts g).out ≡ g.out ++ without g.out (nub ts))
unfolding add_new nub
add_new-out [] g h = (h, sym (append-nil g.out))
add_new-out (t ∷ ts) g h =
    let (keep, eq) = add_new-out ts (add_one t g) (add_one-IsConsistent t g h) in
    (keep, eq ∙ add_one-out t (nub ts) g h)

pub dedupe-nub : (ts : List GoString) → dedupe_preserve_order ts ≡ nub ts
unfolding dedupe_preserve_order
dedupe-nub ts =
    (add_new-out ts nothing_gathered nothing_gathered-IsConsistent).1 ∙ without-nil (nub ts)

pub add_new-append :
    (ts us : List GoString) (g : Gathered) → add_new (ts ++ us) g ≡ add_new us (add_new ts g)
unfolding add_new
add_new-append [] us g = refl
add_new-append (t ∷ ts) us g = add_new-append ts us (add_one t g)
