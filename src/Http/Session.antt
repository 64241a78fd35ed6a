-- ===== src/Http/Session.antt =====
-- APISession.exec: how often a request to an SCM is tried.
use cxone_flow_buildwork.Prelude.{
  ℕ, zero, suc, ◌+◌, ◌≤◌, ◌<◌, ltb, nat_beq, ◌≡◌, refl, Bool, true, false, ◌||◌, List, [], ◌∷◌,
  ◌++◌, arith, if◌then◌else◌,
}
use cxone_flow_buildwork.Prelude.Run.{
  scm_auth, retries_exhausted, Result, ok, raised, pure, raise, call, ◌>>=◌, ◌>>◌,
}
use cxone_flow_buildwork.Http.{Act, authenticate, send, sleep, Http, is_ok, sends}

-- `response.status_code in [401, 403]`
abbrev pub is_denied : ℕ → Bool
is_denied status = nat_beq status 401 || nat_beq status 403

abbrev pub is_retried : ℕ → Bool
is_retried status = if is_ok status then false else if is_denied status then false else true

module _ (auth : Bool → Result (Unit {0})) (answer : ℕ → Result ℕ) where
  -- `for tryCount in range(0, self.__retries)`: the rounds left, and tryCount
  unfoldable pub exec_rounds : ℕ → ℕ → Http ℕ
  exec_rounds zero try_count = raise retries_exhausted
  exec_rounds (suc left) try_count =
      let rest = exec_rounds left (suc try_count) in
      do
        call (authenticate (ltb 0 try_count)) (auth (ltb 0 try_count))
        status ← call (send try_count) (answer try_count)
        if is_ok status
            then pure status
            else if is_denied status
            then raise scm_auth
            else (call (sleep 1) (ok tt) >> rest)

  unfoldable pub exec : ℕ → Http ℕ
  unfolding exec_rounds
  exec retries = exec_rounds retries 0

  sends-append : (xs ys : List Act) → sends (xs ++ ys) ≡ sends xs + sends ys
  sends-append [] ys = omega arith
  sends-append (x ∷ xs) ys = omega (arith, sends-append xs ys)

  sends-exec_rounds :
      (left n : ℕ) (acts : List Act) → sends (exec_rounds left n acts).1 ≤ sends acts + left
  unfolding exec_rounds
  sends-exec_rounds zero n acts = ground arith
  sends-exec_rounds (suc left) n acts = grind (arith, sends-append, sends-exec_rounds left (suc n))

  -- A call makes at most as many requests as it may, whatever is answered.
  pub sends-exec : (retries : ℕ) → sends (exec retries []).1 ≤ retries
  unfolding exec
  sends-exec retries = omega (arith, sends-exec_rounds retries 0 [])

  module _ (granted : (force : Bool) → auth force ≡ ok tt) where
    round_again :
        (left n : ℕ) (acts : List Act) (status : ℕ)
        → answer n ≡ ok status
        → is_retried status ≡ true
        → exec_rounds (suc left) n acts
          ≡ exec_rounds left
              (suc n)
              (((acts ++ authenticate (ltb 0 n) ∷ []) ++ send n ∷ []) ++ sleep 1 ∷ [])
    unfolding exec_rounds
    round_again left n acts status h k = ground (arith, granted (ltb 0 n))

    round_last :
        (left n : ℕ) (acts : List Act) (status : ℕ)
        → answer n ≡ ok status
        → is_ok status ≡ true
        → exec_rounds (suc left) n acts
          ≡ (ok status, (acts ++ authenticate (ltb 0 n) ∷ []) ++ send n ∷ [])
    unfolding exec_rounds
    round_last left n acts status h k = ground (arith, granted (ltb 0 n))

    round_sends :
        (acts : List Act) (force : Bool) (n : ℕ)
        → sends (((acts ++ authenticate force ∷ []) ++ send n ∷ []) ++ sleep 1 ∷ [])
          ≡ sends acts + 1
    round_sends acts force n = grind (arith, sends-append)

    last_sends :
        (acts : List Act) (force : Bool) (n : ℕ)
        → sends ((acts ++ authenticate force ∷ []) ++ send n ∷ []) ≡ sends acts + 1
    last_sends acts force n = grind (arith, sends-append)

    module _ (retried : ℕ → ℕ) where
      answer_after :
          (k left n : ℕ) (acts : List Act) (status : ℕ)
          → k < left
          → ((i : ℕ) → i < n + k → (answer i ≡ ok (retried i)) × (is_retried (retried i) ≡ true))
          → answer (n + k) ≡ ok status
          → is_ok status ≡ true
          → ((exec_rounds left n acts).0 ≡ ok status)
            × (sends (exec_rounds left n acts).1 ≡ sends acts + k + 1)
      answer_after k zero n acts status h before last good = absurd (omega (arith, h))
      answer_after zero (suc left) n acts status h before last good =
          let now : answer n ≡ ok status = grind (arith, last) in
          rw (round_last left n acts status now good, last_sends acts (ltb 0 n) n)
            (refl, omega arith)
      answer_after (suc k) (suc left) n acts status h before last good =
          let (a, b) = before n (omega arith) in
          let later : answer (suc n + k) ≡ ok status =
            (let e : suc n + k ≡ n + suc k = omega arith in rw e last) in
          let (c, d) =
            answer_after k left (suc n) _ status (omega (arith, h))
              (λ i l. before i (omega (arith, l))) later good in
          rw (round_again left n acts (retried n) a b)
            (c, omega (arith, d, round_sends acts (ltb 0 n) n))

      none_after :
          (left n : ℕ) (acts : List Act)
          → ((i : ℕ) → i < n + left → (answer i ≡ ok (retried i)) × (is_retried (retried i) ≡ true))
          → ((exec_rounds left n acts).0 ≡ raised retries_exhausted)
            × (sends (exec_rounds left n acts).1 ≡ sends acts + left)
      unfolding exec_rounds
      none_after zero n acts before = (refl, omega arith)
      none_after (suc left) n acts before =
          let (a, b) = before n (omega arith) in
          let (c, d) = none_after left (suc n) _ (λ i l. before i (omega (arith, l))) in
          rw (round_again left n acts (retried n) a b)
            (c, omega (arith, d, round_sends acts (ltb 0 n) n))

      -- If the first k answers are errors other than 401 and 403, and the next one is a success
      -- within the limit, exec returns it after k + 1 requests. Assumed: authentication is granted.
      pub exec_returns :
          (k retries status : ℕ)
          → k < retries
          → ((i : ℕ) → i < k → (answer i ≡ ok (retried i)) × (is_retried (retried i) ≡ true))
          → answer k ≡ ok status
          → is_ok status ≡ true
          → ((exec retries []).0 ≡ ok status) × (sends (exec retries []).1 ≡ k + 1)
      unfolding exec
      exec_returns k retries status h before last good =
          let (a, b) =
            answer_after k retries 0 [] status h (λ i l. before i (omega (arith, l)))
              (let e : 0 + k ≡ k = omega arith in rw e last) good in
          (a, omega (arith, b))

      -- If all answers within the limit are errors other than 401 and 403, exec raises
      -- RetriesExhausted after as many requests as the limit says. Assumed: authentication is
      -- granted.
      pub exec_gives_up :
          (retries : ℕ)
          → ((i : ℕ) → i < retries → (answer i ≡ ok (retried i)) × (is_retried (retried i) ≡ true))
          → ((exec retries []).0 ≡ raised retries_exhausted) × (sends (exec retries []).1 ≡ retries)
      unfolding exec
      exec_gives_up retries before =
          let (a, b) = none_after retries 0 [] (λ i l. before i (omega (arith, l))) in
          (a, omega (arith, b))
