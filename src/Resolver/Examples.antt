-- ===== src/Resolver/Examples.antt =====
-- One scan request and its ends.
use cxone_flow_buildwork.Prelude.{ℕ, ◌-◌, ◌≡◌, refl, Bool, true, false, some, none, [], ◌∷◌, arith}
use cxone_flow_buildwork.Prelude.Run.{Result, ok, raised, clone_error}
use cxone_flow_buildwork.Workflows.{ScanWorkflow, execute}
use cxone_flow_buildwork.Resolver.{ScanMessage, publish_result, settled, results}
use cxone_flow_buildwork.Resolver.Server.{Delivery, failure_of, result_stub}
use cxone_flow_buildwork.Resolver.Server.Expiry.{
  all_expire, requests, results_of, expired_request_ends,
}
use cxone_flow_buildwork.Resolver.Agent.{
  Runner, RunnerKind, shell, suppresses_of, Completed, runner_agent,
}
use cxone_flow_buildwork.Resolver.Agent.Answers.{one_answer}

abbrev message : ScanMessage
message = record {
  moniker = "gh";
  state = execute;
  workflow = ScanWorkflow.push;
  correlation_id = "c";
  capture_logs = false;
  details = record {
    clone_url = "https://gh/org/repo.git";
    commit_hash = "c0ffee";
    scan_branch = "main";
    scan_tags = [];
    file_filters = "";
    project_id = "p";
    orchestrator = "orchestration.gh.GithubOrchestrator";
  };
  details_signature = "signed";
}

abbrev forged : Delivery
forged = record {
  decoded = ok message;
  signature_valid = λ m. false;
  death_reason = some "expired";
  remaining_retries = some 2;
  routing_key = "k";
  published = ok true;
}

-- A runner whose clone fails, and that drops exceptions where its kind does.
abbrev runner : RunnerKind → Bool → Runner
runner kind valid = record {
  executor = ok tt;
  from_public_key = ok tt;
  signature_valid = λ m. valid;
  can_execute = ok true;
  is_scm_service = ok true;
  is_cxone_service = ok true;
  project_name = λ id. ok "repo";
  cloned = raised clone_error;
  located = ok tt;
  head_reset = ok tt;
  resolved = ok (record { returncode = 0; stdout = none });
  copied = ok tt;
  scanned = ok "s";
  published = ok true;
  correlation_id = "c";
  clone_left = ok tt;
  left = ok tt;
  suppresses = suppresses_of kind;
}

abbrev code : ℕ → Result Completed
code n = ok (record { returncode = n; stdout = none })

expired_request_ends_example :
    (requests (all_expire 3 message "k" 3) ≡ 3 - 1)
    × (results_of (all_expire 3 message "k" 3)
        ≡ publish_result result_stub (failure_of message) ∷ [])
expired_request_ends_example = expired_request_ends message "k" 3 3 (omega arith)

one_answer_example :
    (results (runner_agent "java" (runner shell true) (ok message) []).1 ≡ 1)
    × (settled (runner_agent "java" (runner shell true) (ok message) []).1 ≡ 1)
one_answer_example =
    one_answer "java" (runner shell true) message true refl refl refl refl refl refl refl
