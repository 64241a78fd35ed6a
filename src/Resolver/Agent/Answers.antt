-- ===== src/Resolver/Agent/Answers.antt =====
-- What an agent answers to a scan request.
use cxone_flow_buildwork.Prelude.{String, ◌≡◌, Bool, true, false, [], ◌∷◌, arith}
use cxone_flow_buildwork.Prelude.Run.{Raised, ok, raised}
use cxone_flow_buildwork.Resolver.{ScanMessage, ack, settled, results, clone}
use cxone_flow_buildwork.Resolver.Agent.{Completed, Runner, runner_agent, process}

module _ (tag : String) (r : Runner) (msg : ScanMessage) where
  -- A request with a valid signature is answered by exactly one result and settled exactly once,
  -- whichever of the checks, the clone, the resolver and the scan fails. Assumed: the runner is entered
  -- and the key read; the runner drops no exception; the cleanups of the clone worker and of the
  -- runner do not raise, and neither does publishing.
  pub one_answer :
      (acked : Bool)
      → r.executor ≡ ok tt
      → r.from_public_key ≡ ok tt
      → r.signature_valid msg ≡ true
      → r.suppresses ≡ false
      → r.clone_left ≡ ok tt
      → r.left ≡ ok tt
      → r.published ≡ ok acked
      → (results (runner_agent tag r (ok msg) []).1 ≡ 1)
        × (settled (runner_agent tag r (ok msg) []).1 ≡ 1)
  unfolding runner_agent process
  one_answer acked h1 h2 h3 h4 h5 h6 h7 = ground arith

  -- A request whose signature is wrong is acknowledged and nothing else happens: its pickled
  -- services are not read, nothing is cloned, and no result is published.
  pub forged_request :
      r.executor ≡ ok tt
      → r.from_public_key ≡ ok tt
      → r.signature_valid msg ≡ false
      → r.left ≡ ok tt
      → (runner_agent tag r (ok msg) []).1 ≡ ack ∷ []
  unfolding runner_agent
  forged_request h1 h2 h3 h4 = ground arith

  -- With a runner that drops exceptions, a failed clone is acknowledged as a success: no result is
  -- published, so that the server never hears of the request again.
  pub suppressed_failure :
      (e : Raised) (name : String)
      → r.executor ≡ ok tt
      → r.from_public_key ≡ ok tt
      → r.signature_valid msg ≡ true
      → r.can_execute ≡ ok true
      → r.is_scm_service ≡ ok true
      → r.is_cxone_service ≡ ok true
      → r.project_name msg.details.project_id ≡ ok name
      → r.cloned ≡ raised e
      → r.left ≡ ok tt
      → r.suppresses ≡ true
      → (runner_agent tag r (ok msg) []).1 ≡ clone msg.details.clone_url ∷ ack ∷ []
  unfolding runner_agent process
  suppressed_failure e name h1 h2 h3 h4 h5 h6 h7 h8 h9 h10 = ground arith

  -- Where the scan was reported and the runner's cleanup then raises, the server gets a second result
  -- for the same request, a failure, and the request is rejected.
  pub cleanup_answers_again :
      (e : Raised) (acked : Bool) (name scan_id : String) (completed : Completed)
      → r.executor ≡ ok tt
      → r.from_public_key ≡ ok tt
      → r.signature_valid msg ≡ true
      → r.can_execute ≡ ok true
      → r.is_scm_service ≡ ok true
      → r.is_cxone_service ≡ ok true
      → r.project_name msg.details.project_id ≡ ok name
      → r.cloned ≡ ok tt
      → r.located ≡ ok tt
      → r.head_reset ≡ ok tt
      → r.resolved ≡ ok completed
      → r.copied ≡ ok tt
      → r.scanned ≡ ok scan_id
      → r.published ≡ ok acked
      → r.left ≡ raised e
      → (results (runner_agent tag r (ok msg) []).1 ≡ 2)
        × (settled (runner_agent tag r (ok msg) []).1 ≡ 1)
  unfolding runner_agent process
  cleanup_answers_again e acked name scan_id completed h1 h2 h3 h4 h5 h6 h7 h8 h9 h10 h11 h12 h13
        h14 h15 =
      ground arith
