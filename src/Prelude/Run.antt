-- ===== src/Prelude/Run.antt =====
-- Methods that change a state and may raise. What was done before a raise stays done, so the state
-- comes back beside the exception too. `Raised` names the exception classes of the program.
use Prim.Native.Nat.{ℕ}
use mathlib.Core.Path.{◌≡◌, refl}
use mathlib.Core.Logic.{◌⊎◌, inl, inr}
use mathlib.Core.Bool.{Bool, true, false}
use mathlib.Core.Option.{Option}
use Prim.Native.String.{String}
use mathlib.Core.List.{List, [], ◌∷◌, ◌++◌}

pub data Raised : Type 0 where
  -- the program's own classes below BaseException only
  clone_auth clone_error workflow_error orchestration_error not_authorized : Raised
  scan_exists too_many_scans auth_factory_error : Raised
  -- those below Exception
  route_not_found scm_auth retries_exhausted cxone_error configuration_error : Raised
  kickoff_client_error resolver_agent_error : Raised
  -- those of the language and of other packages that the code tells apart
  response_error type_error attribute_error value_error key_error index_error name_error : Raised
  process_error : (returncode : ℕ) → (output : Option String) → Raised
  cancelled : Raised
  other : ℕ → Raised

-- `except Exception` takes these, and `except BaseException` takes all.
abbrev pub is_exception : Raised → Bool
is_exception clone_auth = false
is_exception clone_error = false
is_exception workflow_error = false
is_exception orchestration_error = false
is_exception not_authorized = false
is_exception scan_exists = false
is_exception too_many_scans = false
is_exception auth_factory_error = false
is_exception cancelled = false
is_exception _ = true

pub data Result {ℓ} (A : Type ℓ) : Type ℓ where
  ok : A → Result A
  raised : Raised → Result A

-- To split on how a call ended and keep the equation.
pub Result-cases {ℓ} :
    {A : Type ℓ} (r : Result A) → ((a : A) × (r ≡ ok a)) ⊎ ((e : Raised) × (r ≡ raised e))
Result-cases (ok a) = inl (a, refl)
Result-cases (raised e) = inr (e, refl)

abbrev pub Run {ℓ} : Type ℓ → Type ℓ → Type ℓ
Run S A = S → Result A × S

module _ {ℓ} {S A : Type ℓ} where
  abbrev pub pure : A → Run S A
  pure a s = (ok a, s)

  abbrev pub raise : Raised → Run S A
  raise e s = (raised e, s)

  abbrev pub lift : Result A → Run S A
  lift r s = (r, s)

module _ {ℓ} {S A B : Type ℓ} where
  abbrev pub after : Result A → (A → Run S B) → Run S B
  after (ok a) f s = f a s
  after (raised e) f s = (raised e, s)

  infixl 10 ◌>>=◌ ◌>>◌
  abbrev pub ◌>>=◌ : Run S A → (A → Run S B) → Run S B
  ◌>>=◌ m f s = let (r, s') = m s in after r f s'

  abbrev pub ◌>>◌ : Run S A → Run S B → Run S B
  m >> n = m >>= λ _. n

module _ {ℓ} {S A : Type ℓ} where
  abbrev pub handle : Result A → (Raised → Run S A) → Run S A
  handle (ok a) h s = (ok a, s)
  handle (raised e) h s = h e s

  -- try: m except e: h
  abbrev pub try : Run S A → (Raised → Run S A) → Run S A
  try m h s = let (r, s') = m s in handle r h s'

-- A call of something outside: it is written down, and answers as the environment says.
module _ {ℓ} {C A : Type ℓ} where
  abbrev pub call : C → Result A → Run (List C) A
  call c r calls = (r, calls ++ c ∷ [])
