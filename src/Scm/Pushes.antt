-- ===== src/Scm/Pushes.antt =====
-- Pushes that come to no scan: the SCMs' orchestrators together with orchestration/base.py.
use cxone_flow_buildwork.Prelude.{
  String, ◌==◌, ◌≡◌, ◌⊎◌, refl, false, none, some, List, [], ◌∷◌, ◌++◌, Option-cases, inl, inr,
  arith,
}
use cxone_flow_buildwork.Prelude.Run.{Result-cases, ok}
use cxone_flow_buildwork.Orchestration.Types.{Services, Orchestrator}
use cxone_flow_buildwork.Orchestration.Scan.{member}
use cxone_flow_buildwork.Orchestration.Scan.Gate.{unprotected_does_nothing}
use cxone_flow_buildwork.Scm.{ScmCall, request, scan_calls, run_push}
use cxone_flow_buildwork.Scm.Branches.{normalize_branch_name}
use cxone_flow_buildwork.Scm.Gitlab
use cxone_flow_buildwork.Scm.Bitbucket

append-nil : (calls : List ScmCall) → calls ++ [] ≡ calls
append-nil [] = refl
append-nil (c ∷ calls) = cc (append-nil calls)

-- the base class's gate, seen from an orchestrator that holds its branches
gated :
    (s : Services) (o : Orchestrator) (branches : List String) (calls : List ScmCall)
    → o.protected_branches ≡ ok branches
    → member o.target_branch branches ≡ false
    → (run_push s o calls).1 ≡ calls
unfolding scan_calls
gated s o branches calls held outside =
    let none_holds : (bs : List String)
        → o.protected_branches ≡ ok bs
        → member o.target_branch bs ≡ false =
      λ bs e. ground arith in
    let quiet = (unprotected_does_nothing s o [] none_holds).0 in
    ground (arith, quiet, append-nil calls)

-- A push to a branch of GitLab that the event does not call protected, and that is not the event's
-- default branch, makes no call: nothing is cloned, scanned or fed back, also on an error.
pub unprotected_push_does_nothing :
    (env : Gitlab.Environment) (p : Gitlab.Payload) {ref default_branch : String}
    (calls : List ScmCall)
    → p.ref ≡ some ref
    → p.ref_protected ≡ some false
    → p.default_branch ≡ some default_branch
    → (normalize_branch_name ref == normalize_branch_name default_branch) ≡ false
    → (Gitlab.execute_push_scan_workflow env p false calls).1 ≡ calls
unfolding Gitlab.execute_push_scan_workflow Gitlab.populate_common_push_event_data
unprotected_push_does_nothing env p calls h1 h2 h3 h4 = elim (Option-cases p.after) [
  | inl missing ↦ ground arith
  | inr (hash, after) ↦ elim (Option-cases p.path_with_namespace) [
    | inl missing ↦ ground arith
    | inr (path, there) ↦
        rw (h1, after, there, h2, h3) (gated env.services _ _ calls refl (ground arith))
  ]
]

-- A push to Bitbucket none of whose changes adds or updates a ref makes no call but the one for the
-- branch model: nothing is cloned, scanned or fed back, also on an error.
pub unscannable_push :
    (env : Bitbucket.Environment) (p : Bitbucket.Payload) (calls : List ScmCall)
    → Bitbucket.has_scannable p.changes ≡ false
    → ((Bitbucket.execute_push_scan_workflow env p false calls).1 ≡ calls)
      ⊎ ((Bitbucket.execute_push_scan_workflow env p false calls).1
          ≡ calls ++ request "branchmodel" ∷ [])
unfolding Bitbucket.execute_push_scan_workflow Bitbucket.populate_common_push_data
    Bitbucket.push_branch_and_hash Bitbucket.get_protected_branches
unscannable_push env p calls h = elim (Option-cases p.push_project_key) [
  | inl missing ↦ ground arith
  | inr (key, e1) ↦ elim (Option-cases p.push_project_name) [
    | inl missing ↦ ground arith
    | inr (name, e2) ↦ elim (Option-cases p.push_slug) [
      | inl missing ↦ ground arith
      | inr (slug, e3) ↦ elim (Option-cases p.push_name) [
        | inl missing ↦ ground arith
        | inr (repo, e4) ↦ elim (Result-cases env.branchmodel) [
          | inr (e, failed) ↦ inr (ground arith)
          | inl (none, e5) ↦ inr (ground arith)
          | inl (some (development, production), e5) ↦ inr (
              rw (h, e1, e2, e3, e4, e5)
                (gated env.services _ _ (calls ++ request "branchmodel" ∷ []) refl refl))
        ]
      ]
    ]
  ]
]
