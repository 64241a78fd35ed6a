-- ===== src/Resolver/Server/Expiry.antt =====
-- A request that no agent answers.
use cxone_flow_buildwork.Prelude.{
  ℕ, zero, suc, ◌+◌, ◌-◌, ◌≤◌, max, String, ◌≡◌, refl, true, false, Option, none, some, List, [],
  ◌∷◌, ◌++◌, arith,
}
use cxone_flow_buildwork.Prelude.Run.{ok}
use cxone_flow_buildwork.Resolver.{
  ScanMessage, Act, publish_scan, publish_result, ack, nack, settled,
}
use cxone_flow_buildwork.Resolver.Server.{Delivery, timeout_agent, failure_of, result_stub}

-- The delivery of a message that was published with `retries` and expired.
abbrev pub expired : ScanMessage → String → ℕ → Delivery
expired msg route_key retries = record {
  decoded = ok msg;
  signature_valid = λ m. true;
  death_reason = some "expired";
  remaining_retries = some retries;
  routing_key = route_key;
  published = ok true;
}

abbrev republished : List Act → Option ℕ
republished [] = none
republished (publish_scan route_key msg retries ∷ acts) = some retries
republished (a ∷ acts) = republished acts

-- The messages of a request all of which expire: what the handlers do, one after another.
abbrev follow : (ℕ → List Act) → Option ℕ → List Act
follow next none = []
follow next (some retries) = next retries

abbrev pub all_expire : ℕ → ScanMessage → String → ℕ → List Act
all_expire zero msg route_key retries = []
all_expire (suc fuel) msg route_key retries =
    let acts = (timeout_agent (expired msg route_key retries) []).1 in
    acts ++ follow (all_expire fuel msg route_key) (republished acts)

abbrev is_request : Act → ℕ
is_request (publish_scan route_key msg retries) = 1
is_request _ = 0

abbrev pub requests : List Act → ℕ
requests [] = 0
requests (a ∷ acts) = is_request a + requests acts

-- the results that are published, with the reason of a failure
abbrev pub results_of : List Act → List Act
results_of [] = []
results_of (publish_result r why ∷ acts) = publish_result r why ∷ results_of acts
results_of (a ∷ acts) = results_of acts

module _ (msg : ScanMessage) (route_key : String) where
  last_round :
      (retries : ℕ)
      → retries ≤ 1
      → (timeout_agent (expired msg route_key retries) []).1
        ≡ publish_result result_stub (failure_of msg) ∷ ack ∷ []
  unfolding timeout_agent
  last_round retries h = ground arith

  next_round :
      (n : ℕ)
      → (timeout_agent (expired msg route_key (suc (suc n))) []).1
        ≡ publish_scan route_key msg (suc n) ∷ ack ∷ []
  unfolding timeout_agent
  next_round n = ground arith

  -- A request with n remaining retries whose messages all expire is published n - 1 times more and
  -- then answered once, by a result in the state failure with the moniker, workflow, correlation and
  -- details of the message; n rounds of the handler are enough for that, at least one being needed.
  pub expired_request_ends :
      (fuel retries : ℕ)
      → max retries 1 ≤ fuel
      → (requests (all_expire fuel msg route_key retries) ≡ retries - 1)
        × (results_of (all_expire fuel msg route_key retries)
            ≡ publish_result result_stub (failure_of msg) ∷ [])
  expired_request_ends zero retries h = absurd (omega (arith, h))
  expired_request_ends (suc fuel) zero h = rw (last_round 0 (omega arith)) (refl, refl)
  expired_request_ends (suc fuel) (suc zero) h = rw (last_round 1 (omega arith)) (refl, refl)
  expired_request_ends (suc fuel) (suc (suc n)) h =
      let (a, b) = expired_request_ends fuel (suc n) (omega (arith, h)) in
      rw (next_round n) (omega (arith, a), b)

-- Every delivery to the timeout handler is settled exactly once, whatever the body, the signature,
-- the headers and the broker answer.
pub timeout_settles_once : (d : Delivery) → settled (timeout_agent d []).1 ≡ 1
unfolding timeout_agent
timeout_settles_once d = ground arith

-- Nothing is published for a message whose signature is wrong, and it is rejected for good.
pub forged_timeout :
    (d : Delivery) (msg : ScanMessage)
    → d.decoded ≡ ok msg
    → d.signature_valid msg ≡ false
    → (timeout_agent d []).1 ≡ nack false ∷ []
unfolding timeout_agent
forged_timeout d msg h k = ground arith
