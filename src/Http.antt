-- ===== src/Http.antt =====
-- The loops around HTTP requests: APISession.exec (api_utils/apisession.py), the delivery of a SARIF
-- log (HttpDeliveryAgent in workflows/push_feedback_service.py), and the kickoff client
-- (cxoneflow_kickoff_api/kickoff_client.py). The n-th answer is what the network gives to the n-th
-- request: a status code or an exception.
pub mod Session
pub mod Delivery
pub mod KickoffClient
mod Examples
use cxone_flow_buildwork.Prelude.{ℕ, suc, ◌+◌, ltb, Bool, true, false, List, [], ◌∷◌}
use cxone_flow_buildwork.Prelude.Run.{Result, ok, raised, Run, call}

pub data Act : Type 0 where
  authenticate : (force_reauth : Bool) → Act
  send : ℕ → Act
  sleep : (seconds : ℕ) → Act

abbrev pub Http : Type 0 → Type 0
Http A = Run (List Act) A

-- Response.ok of the requests package
abbrev pub is_ok : ℕ → Bool
is_ok status = ltb status 400

abbrev is_send : Act → ℕ
is_send (send n) = 1
is_send _ = 0

-- The requests that were made.
abbrev pub sends : List Act → ℕ
sends [] = 0
sends (a ∷ acts) = is_send a + sends acts
