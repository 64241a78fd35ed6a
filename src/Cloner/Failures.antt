-- ===== src/Cloner/Failures.antt =====
-- How a clone ends (scm_services/cloner.py).
use cxone_flow_buildwork.Prelude.{
  Bool, nat_beq, ◌&&◌, String, ◌≡◌, none, some, List, [], ◌∷◌, ◌++◌, arith, if◌then◌else◌,
}
use cxone_flow_buildwork.Prelude.Run.{clone_auth, process_error, ok, raised}
use cxone_flow_buildwork.Cloner.{
  Act, Environment, git_cmd_stub, fix_clone_url, update_submodules, do_clone, classify, clone_to,
}

update_submodules-ok :
    (env : Environment) (location : String) (acts : List Act)
    → (update_submodules env location acts).0 ≡ ok tt
unfolding update_submodules
update_submodules-ok env location acts = ground arith

-- Where the url can be fixed, a clone ends as the one command `clone` does: with the location where git
-- succeeds, whatever the commands for sub-modules return; with CloneAuthException where git fails with
-- code 128 and its message on the user's name or password; and otherwise with git's own failure.
pub clone_ends :
    (env : Environment) (location clone_url fixed : String) (force_reauth : Bool) (acts : List Act)
    → (fix_clone_url env clone_url force_reauth acts).0 ≡ ok fixed
    → (clone_to env location clone_url force_reauth acts).0
      ≡ (elim (env.git (git_cmd_stub env.auth ++ "clone" ∷ fixed ∷ location ∷ [])) [
        | none ↦ ok location
        | some f ↦
            if env.has_auth_message f.stderr && nat_beq f.returncode 128
            then raised clone_auth
            else raised (process_error f.returncode (some f.stderr))
      ])
unfolding clone_to do_clone classify
clone_ends env location clone_url fixed force_reauth acts h = grind (arith, update_submodules-ok)
