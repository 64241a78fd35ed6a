-- ===== src/Cloner.antt =====
-- Cloner, its subclasses and CloneWorker of scm_services/cloner.py: how each kind of authentication
-- fixes the command and the url, what git is run with, and how its failures end. Git itself, the
-- percent-quoting and the parts of a url are given.
pub mod Failures
pub mod Protocols
mod Examples
use text.Mathlib.Text.{starts_with}
use cxone_flow_buildwork.Prelude.{
  ℕ, nat_beq, String, ◌==◌, ◌<>◌, Bool, true, false, ◌&&◌, Option, none, some, List, [], ◌∷◌, ◌++◌,
  if◌then◌else◌,
}
use cxone_flow_buildwork.Prelude.Run.{
  Raised, clone_auth, clone_error, process_error, Result, ok, raised, Run, pure, raise, lift, call,
  try, ◌>>=◌, ◌>>◌,
}

-- the static methods that make a cloner
pub data Auth : Type 0 where
  basic_in_url : (username : Option String) → (password : String) → Auth
  basic_in_header : (encoded_creds : String) → Auth
  token_auth : (token : String) → Auth
  ssh_auth : (keyfile : String) → Auth
  github_app_auth : Auth

-- __git_cmd_stub
unfoldable pub git_cmd_stub : Auth → List String
git_cmd_stub (basic_in_header creds) =
    "git" ∷ "-c" ∷ ("http.extraHeader=Authorization: Basic " <> creds) ∷ []
git_cmd_stub (token_auth token) =
    "git" ∷ "-c" ∷ ("http.extraHeader=Authorization: Bearer " <> token) ∷ []
git_cmd_stub auth = "git" ∷ []

abbrev pub is_ssh : Auth → Bool
is_ssh (ssh_auth keyfile) = true
is_ssh auth = false

-- __protocol_matcher: `^http(s)?` or `^ssh`
unfoldable pub protocol_matcher : Auth → String → Bool
protocol_matcher auth protocol = starts_with protocol (if is_ssh auth then "ssh" else "http")

unfoldable pub supported_protocols : Auth → List String
supported_protocols auth = if is_ssh auth then "ssh" ∷ [] else "http" ∷ "https" ∷ []

-- the two parts of urlsplit that matter here: what stands before and after the netloc, around it
pub record SplitUrl : Type 0 where
  pub before : String
  pub netloc : String
  pub rest : String

abbrev user_part : (String → String) → Option String → String
user_part quote none = "git"
user_part quote (some username) = quote username

-- insert_creds_in_url
unfoldable pub insert_creds_in_url : (String → String) → SplitUrl → Option String → String → String
insert_creds_in_url quote split username password =
    let netloc = user_part quote username <> (":" <> (quote password <> ("@" <> split.netloc))) in
    split.before <> (netloc <> split.rest)

-- What is run, and what lies outside: the token of the GitHub App, git's result for each command, and
-- whether the clone has a file .gitmodules. A failed command is its return code with its stderr.
pub data Act : Type 0 where
  get_token : (force_reauth : Bool) → Act
  run : (cmd : List String) → (cwd : Option String) → Act

pub record Failure : Type 0 where
  pub returncode : ℕ
  pub stderr : String

pub record Environment : Type 0 where
  pub auth : Auth
  pub quote : String → String
  pub split_url : String → SplitUrl
  pub app_token : Bool → Result String
  pub git : List String → Option Failure
  pub has_gitmodules : Bool
  pub has_auth_message : String → Bool

abbrev pub Git : Type 0 → Type 0
Git A = Run (List Act) A

abbrev failed : Option Failure → Result (Unit {0})
failed none = ok tt
failed (some f) = raised (process_error f.returncode (some f.stderr))

module _ (env : Environment) where
  -- subprocess.run(…, check=True)
  abbrev pub run_cmd : List String → Option String → Git (Unit {0})
  run_cmd cmd cwd = call (run cmd cwd) (failed (env.git cmd))

  fix_with : Auth → String → Bool → Git String
  unfolding insert_creds_in_url
  fix_with (basic_in_url username password) url force_reauth =
      pure (insert_creds_in_url env.quote (env.split_url url) username password)
  fix_with github_app_auth url force_reauth = do
    token ← call (get_token force_reauth) (env.app_token force_reauth)
    pure (insert_creds_in_url env.quote (env.split_url url) (some "x-access-token") token)
  fix_with auth url force_reauth = pure url

  -- _fix_clone_url
  unfoldable pub fix_clone_url : String → Bool → Git String
  unfolding fix_with
  fix_clone_url = fix_with env.auth

  abbrev is_process_error : Raised → Bool
  is_process_error (process_error returncode output) = true
  is_process_error _ = false

  -- the part of do_clone on sub-modules, with its `except subprocess.CalledProcessError`
  unfoldable pub update_submodules : String → Git (Unit {0})
  unfolding git_cmd_stub
  update_submodules location =
      let stub = git_cmd_stub env.auth in
      if env.has_gitmodules
      then try
          (run_cmd (stub ++ "submodule" ∷ "init" ∷ []) (some location)
            >> run_cmd (stub ++ "submodule" ∷ "update" ∷ []) (some location))
          (λ e. if is_process_error e then pure tt else raise e)
      else pure tt

  -- do_clone
  unfoldable pub do_clone : String → String → Git Bool
  unfolding update_submodules git_cmd_stub
  do_clone clone_url location = do
    run_cmd (git_cmd_stub env.auth ++ "clone" ∷ clone_url ∷ location ∷ []) none
    update_submodules location
    pure true

  -- the `except` of CloneWorker.loc
  unfoldable pub classify : Raised → Raised
  classify (process_error returncode (some stderr)) =
      if env.has_auth_message stderr && nat_beq returncode 128
      then clone_auth
      else process_error returncode (some stderr)
  classify e = e

  -- `async with await cloner.clone(…) as worker: await worker.loc()`, to a temporary directory
  unfoldable pub clone_to : String → String → Bool → Git String
  unfolding fix_clone_url do_clone classify
  clone_to location clone_url force_reauth = do
    fixed ← fix_clone_url clone_url force_reauth
    completed ← try (do_clone fixed location) (λ e. raise (classify e))
    if completed then pure location else raise clone_error

  -- reset_head
  unfoldable pub reset_head : String → String → Git (Unit {0})
  reset_head code_path hash = run_cmd ("git" ∷ "reset" ∷ "--hard" ∷ hash ∷ []) (some code_path)
