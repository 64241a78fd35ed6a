-- ===== src/Http/KickoffClient.antt =====
-- The loops of cxoneflow_kickoff_api/kickoff_client.py.
use cxone_flow_buildwork.Prelude.{
  ℕ, zero, suc, ◌+◌, ◌*◌, ◌<◌, min, nat_beq, ◌≡◌, refl, sym, Bool, true, false, Option, none, some,
  List, [], ◌∷◌, ◌++◌, arith, if◌then◌else◌,
}
use cxone_flow_buildwork.Prelude.Run.{
  kickoff_client_error, value_error, Result, ok, raised, pure, raise, lift, call, ◌>>=◌, ◌>>◌,
}
use cxone_flow_buildwork.Kickoff.{
  Status, scan_started, scan_exists, bad_request, not_authorized, no_route, too_many_scans,
  server_error,
}
use cxone_flow_buildwork.Http.{Act, authenticate, send, sleep, Http}

-- KickoffStatusCodes(code)
abbrev pub status_of : ℕ → Result Status
status_of code =
    if nat_beq code 201
    then ok scan_started
    else if nat_beq code 299
    then ok scan_exists
    else if nat_beq code 400
    then ok bad_request
    else if nat_beq code 401
    then ok not_authorized
    else if nat_beq code 403
    then ok no_route
    else if nat_beq code 429
    then ok too_many_scans
    else if nat_beq code 500
    then ok server_error
    else raised value_error

-- __SLEEP_SECONDS and __SLEEP_MAX_SECONDS
abbrev pub sleep_seconds : ℕ
sleep_seconds = 15

abbrev pub sleep_max_seconds : ℕ
sleep_max_seconds = 180

-- The callback is asked with the delay, after the request of that number; None always agrees.
module _ (answer : ℕ → Result ℕ) (waiting_callback : Option (ℕ → ℕ → Bool)) where
  -- __execute_request: the status code, and the number of the next request
  unfoldable pub execute_request : ℕ → Http (ℕ × ℕ)
  execute_request n = do
    call (authenticate false) (ok tt)
    status ← call (send n) (answer n)
    if nat_beq status 401
        then (do
          call (authenticate true) (ok tt)
          again ← call (send (suc n)) (answer (suc n))
          pure (again, suc (suc n)))
        else pure (status, suc n)

  abbrev pub agrees : ℕ → ℕ → Bool
  agrees delay n = elim waiting_callback [ none ↦ true | some f ↦ f delay n ]

  -- `while True` of kickoff_scan; `none` where the fuel ends first
  unfoldable pub kickoff_rounds : ℕ → ℕ → ℕ → Http (Option Status)
  unfolding execute_request
  kickoff_rounds zero n delay = pure none
  kickoff_rounds (suc fuel) n delay = do
    (code, next) ← execute_request n
    status ← lift (status_of code)
    elim status [
      | scan_started ↦ pure (some scan_started)
      | scan_exists ↦ pure (some scan_exists)
      | too_many_scans ↦
          let rest = kickoff_rounds fuel next (min sleep_max_seconds (delay + sleep_seconds)) in
          if agrees delay n
          then (call (sleep delay) (ok tt) >> rest)
          else pure (some too_many_scans)
      | _ ↦ raise kickoff_client_error
    ]

  unfoldable pub kickoff_scan : ℕ → Http (Option Status)
  unfolding kickoff_rounds
  kickoff_scan fuel = kickoff_rounds fuel 0 sleep_seconds

  -- The seconds slept while k answers say that too many scans run, j others having done so before.
  abbrev pub waits : ℕ → ℕ → ℕ
  waits zero j = 0
  waits (suc k) j = min 180 (15 * suc j) + waits k (suc j)

  round_again :
      (fuel n j : ℕ) (acts : List Act)
      → answer n ≡ ok 429
      → agrees (min 180 (15 * suc j)) n ≡ true
      → kickoff_rounds (suc fuel) n (min 180 (15 * suc j)) acts
        ≡ kickoff_rounds fuel (suc n) (min 180 (15 * suc (suc j))) (
            ((acts ++ authenticate false ∷ []) ++ send n ∷ []) ++ sleep (min 180 (15 * suc j)) ∷ [])
  unfolding kickoff_rounds execute_request
  round_again fuel n j acts h k =
      let e : min 180 (min 180 (15 * suc j) + 15) ≡ min 180 (15 * suc (suc j)) = omega arith in
      ground (arith, h, k, e)

  abbrev is_sleep : Act → ℕ
  is_sleep (sleep seconds) = seconds
  is_sleep _ = 0

  abbrev pub slept : List Act → ℕ
  slept [] = 0
  slept (a ∷ acts) = is_sleep a + slept acts

  slept-append : (xs ys : List Act) → slept (xs ++ ys) ≡ slept xs + slept ys
  slept-append [] ys = omega arith
  slept-append (x ∷ xs) ys = omega (arith, slept-append xs ys)

  round_slept :
      (acts : List Act) (n seconds : ℕ)
      → slept (((acts ++ authenticate false ∷ []) ++ send n ∷ []) ++ sleep seconds ∷ [])
        ≡ slept acts + seconds
  round_slept acts n seconds = grind (arith, slept-append)

  round_started :
      (fuel n delay : ℕ) (acts : List Act)
      → answer n ≡ ok 201
      → kickoff_rounds (suc fuel) n delay acts
        ≡ (ok (some scan_started), (acts ++ authenticate false ∷ []) ++ send n ∷ [])
  unfolding kickoff_rounds execute_request
  round_started fuel n delay acts h = ground (arith, h)

  last_slept :
      (acts : List Act) (n : ℕ)
      → slept ((acts ++ authenticate false ∷ []) ++ send n ∷ []) ≡ slept acts
  last_slept acts n = grind (arith, slept-append)

  module _ (patient : (delay n : ℕ) → agrees delay n ≡ true) where
    started_after :
        (k fuel n : ℕ) (acts : List Act)
        → k < fuel
        → ((i : ℕ) → i < n + k → answer i ≡ ok 429)
        → answer (n + k) ≡ ok 201
        → ((kickoff_rounds fuel n (min 180 (15 * suc n)) acts).0 ≡ ok (some scan_started))
          × (slept (kickoff_rounds fuel n (min 180 (15 * suc n)) acts).1 ≡ slept acts + waits k n)
    started_after k zero n acts h before last = absurd (omega (arith, h))
    started_after zero (suc fuel) n acts h before last =
        let now : answer n ≡ ok 201 = (let e : n + 0 ≡ n = omega arith in rw (sym e) last) in
        rw (round_started fuel n (min 180 (15 * suc n)) acts now)
          (refl, omega (arith, last_slept acts n))
    started_after (suc k) (suc fuel) n acts h before last =
        let later : answer (suc n + k) ≡ ok 201 =
          (let e : suc n + k ≡ n + suc k = omega arith in rw e last) in
        let (a, b) =
          started_after k fuel (suc n) _ (omega (arith, h)) (λ i l. before i (omega (arith, l)))
            later in
        rw (round_again fuel n n acts (before n (omega arith)) (patient _ n))
          (a, omega (arith, b, round_slept acts n (min 180 (15 * suc n))))

    -- A client whose callback agrees to wait, and whose first k requests are refused because too
    -- many scans run, starts its scan by the next request if the server accepts that one. It has
    -- then slept 15, 30, 45, … seconds, at most 180 at a time; k + 1 rounds are enough.
    pub kickoff_waits :
        (k fuel : ℕ)
        → k < fuel
        → ((i : ℕ) → i < k → answer i ≡ ok 429)
        → answer k ≡ ok 201
        → ((kickoff_scan fuel []).0 ≡ ok (some scan_started))
          × (slept (kickoff_scan fuel []).1 ≡ waits k 0)
    unfolding kickoff_scan
    kickoff_waits k fuel h before last =
        let (a, b) =
          started_after k fuel 0 [] h (λ i l. before i (omega (arith, l)))
            (let e : 0 + k ≡ k = omega arith in rw e last) in
        (a, omega (arith, b))

  -- A second 401 in a row is not retried: it ends the kickoff with an exception after two requests,
  -- the second with a new token.
  pub denied_twice :
      (fuel : ℕ)
      → answer 0 ≡ ok 401
      → answer 1 ≡ ok 401
      → kickoff_scan (suc fuel) [] ≡ (
        raised kickoff_client_error,
        authenticate false ∷ send 0 ∷ authenticate true ∷ send 1 ∷ [],
      )
  unfolding kickoff_scan execute_request
  denied_twice fuel h k = ground arith
