-- ===== src/Config/Setup/Sound.antt =====
-- What holds of the services that __setup_scm makes.
use cxone_flow_buildwork.Prelude.{
  ℕ, ◌≤◌, ◌≡◌, refl, [], true, false, Option, none, some, inl, inr, arith, Bool-cases,
}
use cxone_flow_buildwork.Prelude.Dict.{has_key}
use cxone_flow_buildwork.Prelude.Run.{ok}
use cxone_flow_buildwork.Config.{max_concurrent_scans}
use cxone_flow_buildwork.Config.Lookups.{value_warn_deprecated, deprecated_is_ignored}
use cxone_flow_buildwork.Config.Credentials.{Scm}
use cxone_flow_buildwork.Config.Setup.Connecting.{secret_passes}
use cxone_flow_buildwork.Config.Setup.Resolving.{
  ResolverElement, ResolverService, is_allowed, dummy_service, resolver_service_factory,
  default_is_allowed, Holds, chain-Holds, ok-Holds, raised-Holds, holds_of_ok,
}
use cxone_flow_buildwork.Config.Setup.{
  World, Element, Kickoff, KickoffElement, dummy_kickoff, kickoff_service, Services, setup_scm,
  kickoff_service_factory,
}

-- a kickoff service has a limit between 1 and 10
abbrev pub IsLimited : Kickoff → Type 0
IsLimited dummy_kickoff = Unit
IsLimited (kickoff_service key n) = (1 ≤ n) × (n ≤ 10)

pub record IsSound (w : World) (s : Services) : Type 0 where
  pub route : w.finds_in_random s.repo_match ≡ false
  pub secret : w.passes_policy s.scm.shared_secret ≡ true
  pub default_tag : is_allowed s.resolver.default_tag s.resolver.agent_tags ≡ true
  pub limit : IsLimited s.kickoff

max_concurrent_scans-bounds :
    (n : Option ℕ) → (1 ≤ max_concurrent_scans n) × (max_concurrent_scans n ≤ 10)
unfolding max_concurrent_scans
max_concurrent_scans-bounds none = (omega arith, omega arith)
max_concurrent_scans-bounds (some n) = (omega arith, omega arith)

abbrev agent_element : Element → Option ResolverElement
agent_element c =
    value_warn_deprecated (some "scan-agent") (some "resolver") (some c.scan_agents) none

module _ (w : World) where
  kickoff-IsLimited : (c : Option KickoffElement) → Holds IsLimited (kickoff_service_factory w c)
  unfolding kickoff_service_factory
  kickoff-IsLimited none = ok-Holds _ _ tt
  kickoff-IsLimited (some c) =
      chain-Holds _ _ _ λ key _. ok-Holds _ _ (max_concurrent_scans-bounds c.max_concurrent_scans)

  no_element :
      (resolver : ResolverService) (c : Option ResolverElement)
      → c ≡ none
      → resolver_service_factory w.files w.default_ssl w.from_private_key c ≡ ok resolver
      → resolver ≡ dummy_service
  unfolding resolver_service_factory
  no_element resolver none h made = ground arith
  no_element resolver (some c) h made = absurd (ground arith)

  setup_scm-Holds : (scm : Scm) (c : Element) → Holds (IsSound w) (setup_scm w scm c)
  unfolding setup_scm
  setup_scm-Holds scm c = chain-Holds _ _ _ λ repo_match _. chain-Holds _ _ _ λ _ _.
      elim (Bool-cases (w.finds_in_random repo_match)) [
        | inl e ↦ rw e (raised-Holds _ _)
        | inr e ↦ rw e (
            chain-Holds _ _ _ λ moniker _. chain-Holds _ _ _ λ cxone _.
              chain-Holds _ _ _ λ client _. chain-Holds _ _ _ λ pr _. chain-Holds _ _ _ λ push _.
                chain-Holds _ _ _ λ poll _. chain-Holds _ _ _ λ resolver made.
                  chain-Holds _ _ _ λ naming _. chain-Holds _ _ _ λ grouping _.
                    chain-Holds _ _ _ λ connection _. chain-Holds _ _ _ λ scm_service connected.
                      chain-Holds _ _ _ λ kickoff started. ok-Holds _ _ record {
                        route = e;
                        secret = holds_of_ok _ (secret_passes _ _ _ scm connection) connected;
                        default_tag =
                            default_is_allowed w.files w.default_ssl w.from_private_key
                              (agent_element c) made;
                        limit = holds_of_ok _ (kickoff-IsLimited c.kickoff) started;
                      })
      ]

  -- The services that are set up are sound. Their route does not match a random text; their shared
  -- secret fits the policy; the tag that a project is given by default is one of the allowed tags;
  -- and first scans are limited to a number between 1 and 10.
  pub setup_scm-IsSound :
      (scm : Scm) (c : Element) {s : Services} → setup_scm w scm c ≡ ok s → IsSound w s
  setup_scm-IsSound scm c h = holds_of_ok _ (setup_scm-Holds scm c) h

  dropped_agent :
      (scm : Scm) (c : Element)
      → has_key c.scan_agents "resolver" ≡ true
      → Holds (λ (s : Services). s.resolver ≡ dummy_service) (setup_scm w scm c)
  unfolding setup_scm
  dropped_agent scm c there = chain-Holds _ _ _ λ repo_match _. chain-Holds _ _ _ λ _ _.
      elim (Bool-cases (w.finds_in_random repo_match)) [
        | inl e ↦ rw e (raised-Holds _ _)
        | inr e ↦ rw e (
            chain-Holds _ _ _ λ moniker _. chain-Holds _ _ _ λ cxone _.
              chain-Holds _ _ _ λ client _. chain-Holds _ _ _ λ pr _. chain-Holds _ _ _ λ push _.
                chain-Holds _ _ _ λ poll _. chain-Holds _ _ _ λ resolver made.
                  chain-Holds _ _ _ λ naming _. chain-Holds _ _ _ λ grouping _.
                    chain-Holds _ _ _ λ connection _. chain-Holds _ _ _ λ scm_service _.
                      chain-Holds _ _ _ λ kickoff _. ok-Holds _ _ (
                        no_element resolver (agent_element c)
                          (deprecated_is_ignored "scan-agent" "resolver" c.scan_agents none there)
                          made))
      ]

  -- A service whose element has the deprecated key `resolver` is set up exactly as one that has neither
  -- this key nor `scan-agent`, with the same services or the same exception: neither value is read, also
  -- where both are there. Where it is set up, it has the dummy of a resolver service.
  pub deprecated_agent_is_dropped :
      (scm : Scm) (c : Element)
      → has_key c.scan_agents "resolver" ≡ true
      → (setup_scm w scm c ≡ setup_scm w scm (record c { scan_agents = [] }))
        × Holds (λ (s : Services). s.resolver ≡ dummy_service) (setup_scm w scm c)
  unfolding setup_scm
  deprecated_agent_is_dropped scm c there = (
    rw (deprecated_is_ignored "scan-agent" "resolver" c.scan_agents none there) refl,
    dropped_agent scm c there,
  )
