-- ===== src/Config.antt =====
-- config/server/__init__.py: the table of services by SCM and by service moniker, filled by
-- bootstrap and read by route and by moniker. Regular expressions are another package's: whether a
-- service's `repo-match` matches a url is a parameter.
pub mod Routes
pub mod Monikers
pub mod Limits
pub mod Lookups
pub mod Credentials
pub mod Services
pub mod Agents
pub mod Setup
mod Examples
use cxone_flow_buildwork.Prelude.{
  ℕ, min, max, String, Bool, true, false, not, ◌==◌, Option, none, some, List, [], ◌∷◌, ◌++◌,
  if◌then◌else◌,
}
use cxone_flow_buildwork.Prelude.Dict.{Dict, get, has_key, put}
use cxone_flow_buildwork.Prelude.Run.{Result, ok, raised, route_not_found, configuration_error}

-- One configured service: its number stands for all that CxOneFlowServices holds.
pub record Entry : Type 0 where
  pub moniker : String
  pub service : ℕ

pub record Tables : Type 0 where
  pub ordered : Dict (List Entry)
  pub by_moniker : Dict Entry

abbrev pub no_tables : Tables
no_tables = record { ordered = []; by_moniker = [] }

abbrev pub entries_of : Option (List Entry) → List Entry
entries_of none = []
entries_of (some entries) = entries

-- The body of bootstrap's inner loop, after __setup_scm has made the services.
unfoldable pub register : String → Entry → Tables → Result Tables
unfolding get has_key put
register scm entry t =
    if has_key t.by_moniker entry.moniker
    then raised configuration_error
    else ok (record {
      ordered = put t.ordered scm (entries_of (get t.ordered scm) ++ entry ∷ []);
      by_moniker = put t.by_moniker entry.moniker entry;
    })

-- Its loops, over the entries of the configuration in order; __setup_scm may raise.
unfoldable pub register_all : List (String × Result Entry) → Tables → Result Tables
register_all [] t = ok t
register_all ((scm, raised e) ∷ rest) t = raised e
register_all ((scm, ok entry) ∷ rest) t = elim (register scm entry t) [
  | raised e ↦ raised e
  | ok t' ↦ register_all rest t'
]

module _ (matches : Entry → String → Bool) where
  -- the inner `for entry in …`
  unfoldable pub first_match : List Entry → String → Option Entry
  first_match [] url = none
  first_match (entry ∷ entries) url =
      if matches entry url then some entry else first_match entries url

  -- the outer `for url in it_list`
  unfoldable pub first_route : List Entry → List String → Option Entry
  first_route entries [] = none
  first_route entries (url ∷ urls) = elim (first_match entries url) [
    | none ↦ first_route entries urls
    | some entry ↦ some entry
  ]

  abbrev found_route : Option Entry → Result (Option Entry)
  found_route none = raised route_not_found
  found_route (some entry) = ok (some entry)

  abbrev route_in : Option (List Entry) → List String → Result (Option Entry)
  route_in none urls = ok none
  route_in (some entries) urls = found_route (first_route entries urls)

  -- None for an SCM that is not configured, an exception where nothing matches
  unfoldable pub retrieve_services_by_route : Tables → List String → String → Result (Option Entry)
  unfolding first_match first_route
  retrieve_services_by_route t urls scm = route_in (get t.ordered scm) urls

-- __kickoff_service_factory: `max(min(10, int(…)), 1)`. The configured number may be negative; -n is
-- 0 here, which the code treats alike.
unfoldable pub max_concurrent_scans : Option ℕ → ℕ
max_concurrent_scans none = max (min 10 3) 1
max_concurrent_scans (some configured) = max (min 10 configured) 1
