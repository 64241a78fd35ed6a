-- ===== src/Config/Monikers.antt =====
-- The table by SCM and the table by moniker that bootstrap fills (config/server/__init__.py).
use cxone_flow_buildwork.Prelude.{
  ◌≡◌, String, Bool, ◌==◌, eq_iff, Option, some, List, [], ◌∷◌, ◌++◌, All, All-append, arith,
  Bool-cases, inl, inr, if◌then◌else◌,
}
use cxone_flow_buildwork.Prelude.Dict.{get, get-put, has_key-eq-false}
use cxone_flow_buildwork.Prelude.Run.{Result, ok, raised, Result-cases}
use cxone_flow_buildwork.Config.{
  Entry, Tables, no_tables, entries_of, register, register_all, retrieve_services_by_route,
}
use cxone_flow_buildwork.Config.Routes.{route_in_entries}

-- A service is found under its own moniker.
abbrev Known : Tables → Entry → Type 0
Known t e = get t.by_moniker e.moniker ≡ some e

abbrev IsLinked : Tables → Type 0
IsLinked t = (scm : String) → All (Known t) (entries_of (get t.ordered scm))

-- A new moniker hides no service that was there.
Known-register :
    (t u : Tables) (scm : String) (entry : Entry)
    → register scm entry t ≡ ok u
    → (e : Entry) → Known t e
    → Known u e
unfolding register
Known-register t u scm entry h e k = ground (
  arith,
  get-put t.by_moniker entry.moniker e.moniker entry,
  eq_iff entry.moniker e.moniker,
  has_key-eq-false t.by_moniker entry.moniker,
)

All-Known :
    (t u : Tables) (scm : String) (entry : Entry)
    → register scm entry t ≡ ok u
    → (es : List Entry) → All (Known t) es
    → All (Known u) es
All-Known t u scm entry h [] ks = tt
All-Known t u scm entry h (e ∷ es) ks =
    (Known-register t u scm entry h e ks.0, All-Known t u scm entry h es ks.1)

Known-entry :
    (t u : Tables) (scm : String) (entry : Entry) → register scm entry t ≡ ok u → Known u entry
unfolding register
Known-entry t u scm entry h = ground (
  arith,
  get-put t.by_moniker entry.moniker entry.moniker entry,
  eq_iff entry.moniker entry.moniker,
)

ordered-register :
    (t u : Tables) (scm other : String) (entry : Entry)
    → register scm entry t ≡ ok u
    → get u.ordered other ≡ (
        if scm == other
        then some (entries_of (get t.ordered scm) ++ entry ∷ [])
        else get t.ordered other)
unfolding register
ordered-register t u scm other entry h =
    ground (arith, get-put t.ordered scm other (entries_of (get t.ordered scm) ++ entry ∷ []))

register-IsLinked :
    (t u : Tables) (scm : String) (entry : Entry)
    → register scm entry t ≡ ok u
    → IsLinked t
    → IsLinked u
register-IsLinked t u scm entry h linked other = elim (Bool-cases (scm == other)) [
  | inl same ↦
      rw (ordered-register t u scm other entry h, same)
        (All-append (Known u) _ _ (All-Known t u scm entry h _ (linked scm))
          (Known-entry t u scm entry h, tt))
  | inr differs ↦
      rw (ordered-register t u scm other entry h, differs)
        (All-Known t u scm entry h _ (linked other))
]

register_all-IsLinked :
    (config : List (String × Result Entry)) (t u : Tables)
    → register_all config t ≡ ok u
    → IsLinked t
    → IsLinked u
unfolding register_all
register_all-IsLinked [] t u h linked = let same : t ≡ u = cc in rw (← same) linked
register_all-IsLinked ((scm, raised e) ∷ config) t u h linked = absurd (cc)
register_all-IsLinked ((scm, ok entry) ∷ config) t u h linked =
    elim (Result-cases (register scm entry t)) [
      | inl (t', q) ↦
          register_all-IsLinked config t' u (rw (q, register_all) at h)
            (register-IsLinked t t' scm entry q linked)
      | inr (e, q) ↦ absurd (cc (q, h))
    ]

entries-eq : (o : Option (List Entry)) (es : List Entry) → o ≡ some es → entries_of o ≡ es
entries-eq o es h = rw h

-- After a configuration was loaded, the service that a route finds for an event is the one that
-- the workflow agents find by its moniker.
pub route_agrees_with_moniker :
    (matches : Entry → String → Bool) (config : List (String × Result Entry)) (t : Tables)
    (urls : List String) (scm : String) (entries : List Entry) (e : Entry)
    → register_all config no_tables ≡ ok t
    → get t.ordered scm ≡ some entries
    → retrieve_services_by_route matches t urls scm ≡ ok (some e)
    → get t.by_moniker e.moniker ≡ some e
unfolding get
route_agrees_with_moniker matches config t urls scm entries e loaded found h =
    route_in_entries matches (Known t) t urls scm entries e found
      (rw (entries-eq _ _ found) at
        (register_all-IsLinked config no_tables t loaded (λ other. tt) scm))
      h
