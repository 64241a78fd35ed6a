-- ===== src/Config/Routes.antt =====
-- Routing of an event to its service (retrieve_services_by_route).
use cxone_flow_buildwork.Prelude.{
  String, ◌≡◌, ◌↔◌, Bool, false, none, some, List, [], ◌∷◌, All, arith, Option-cases, Bool-cases,
  inl, inr,
}
use cxone_flow_buildwork.Prelude.Dict.{get}
use cxone_flow_buildwork.Prelude.Run.{ok, raised, route_not_found}
use cxone_flow_buildwork.Config.{
  Entry, Tables, first_match, first_route, retrieve_services_by_route,
}

module _ (matches : Entry → String → Bool) where
  first_match-eq-none_iff :
      (entries : List Entry) (url : String)
      → (first_match matches entries url ≡ none) ↔ All (λ e. matches e url ≡ false) entries
  unfolding first_match
  first_match-eq-none_iff [] url = ground arith
  first_match-eq-none_iff (e ∷ entries) url = ground (arith, first_match-eq-none_iff entries url)

  first_route-eq-none_iff :
      (entries : List Entry) (urls : List String)
      → (first_route matches entries urls ≡ none)
        ↔ All (λ url. All (λ e. matches e url ≡ false) entries) urls
  unfolding first_route
  first_route-eq-none_iff entries [] = ground arith
  first_route-eq-none_iff entries (url ∷ urls) =
      ground (arith, first_match-eq-none_iff entries url, first_route-eq-none_iff entries urls)

  -- For a configured SCM, RouteNotFoundException is raised exactly when no configured service
  -- matches any of the event's urls.
  pub route_not_found_iff :
      (t : Tables) (urls : List String) (scm : String) (entries : List Entry)
      → get t.ordered scm ≡ some entries
      → (retrieve_services_by_route matches t urls scm ≡ raised route_not_found)
        ↔ All (λ url. All (λ e. matches e url ≡ false) entries) urls
  unfolding retrieve_services_by_route
  route_not_found_iff t urls scm entries h = ground (arith, first_route-eq-none_iff entries urls)

  module _ (P : Entry → Type 0) where
    first_match_in :
        (entries : List Entry) (url : String) (e : Entry)
        → All P entries
        → first_match matches entries url ≡ some e
        → P e
    unfolding first_match
    first_match_in [] url e ps h = cc
    first_match_in (d ∷ entries) url e ps h = elim (Bool-cases (matches d url)) [
      | inl hit ↦ let same : d ≡ e = ground arith in rw (← same) ps.0
      | inr miss ↦ first_match_in entries url e ps.1 (ground arith)
    ]

    first_route_in :
        (entries : List Entry) (urls : List String) (e : Entry)
        → All P entries
        → first_route matches entries urls ≡ some e
        → P e
    unfolding first_route
    first_route_in entries [] e ps h = cc
    first_route_in entries (url ∷ urls) e ps h =
        elim (Option-cases (first_match matches entries url)) [
          | inl miss ↦ first_route_in entries urls e ps (ground arith)
          | inr (d, hit) ↦ first_match_in entries url e ps (ground arith)
        ]

    -- What holds of every service of an SCM holds of the one that a route finds.
    pub route_in_entries :
        (t : Tables) (urls : List String) (scm : String) (entries : List Entry) (e : Entry)
        → get t.ordered scm ≡ some entries
        → All P entries
        → retrieve_services_by_route matches t urls scm ≡ ok (some e)
        → P e
    unfolding retrieve_services_by_route
    route_in_entries t urls scm entries e found ps h =
        first_route_in entries urls e ps (ground arith)
