-- ===== src/Http/Delivery.antt =====
-- HttpDeliveryAgent.__post: how often the delivery of a SARIF log is tried.
use cxone_flow_buildwork.Prelude.{
  ℕ, zero, suc, ◌+◌, ◌≤◌, max, ◌≡◌, Bool, true, false, Option, none, some, List, [], ◌∷◌, ◌++◌,
  arith, if◌then◌else◌,
}
use cxone_flow_buildwork.Prelude.Run.{Result, ok, raised, pure, call, ◌>>=◌, ◌>>◌}
use cxone_flow_buildwork.Http.{Act, send, sleep, Http, is_ok, sends}

-- `delivered`, or none for the exception that breaks the loop
abbrev posted : Result ℕ → Option Bool
posted (raised e) = none
posted (ok status) = some (is_ok status)

module _ (answer : ℕ → Result ℕ) (delay : ℕ) where
  -- `while remaining >= 0`: remaining + 1 rounds, `once` being true after the first; any exception
  -- ends the loop
  unfoldable pub post_rounds : ℕ → ℕ → Bool → Http Bool
  post_rounds zero n once = pure false
  post_rounds (suc left) n once =
      let rest = post_rounds left (suc n) true in
      do
        if once then call (sleep delay) (ok tt) else pure tt
        delivered ← call (send n) (ok (posted (answer n)))
        elim delivered [ none ↦ pure false | some true ↦ pure true | some false ↦ rest ]

  unfoldable pub post : ℕ → Http Bool
  unfolding post_rounds
  post retries = post_rounds (suc (max retries 0)) 0 false

  sends-append : (xs ys : List Act) → sends (xs ++ ys) ≡ sends xs + sends ys
  sends-append [] ys = omega arith
  sends-append (x ∷ xs) ys = omega (arith, sends-append xs ys)

  sends-post_rounds :
      (left n : ℕ) (once : Bool) (acts : List Act)
      → sends (post_rounds left n once acts).1 ≤ sends acts + left
  unfolding post_rounds
  sends-post_rounds zero n once acts = ground arith
  sends-post_rounds (suc left) n once acts =
      grind (arith, sends-append, sends-post_rounds left (suc n) true)

  abbrev pub is_returned : Result Bool → Bool
  is_returned (ok delivered) = true
  is_returned (raised e) = false

  returns-post_rounds :
      (left n : ℕ) (once : Bool) (acts : List Act)
      → is_returned (post_rounds left n once acts).0 ≡ true
  unfolding post_rounds
  returns-post_rounds zero n once acts = ground arith
  returns-post_rounds (suc left) n once acts = ground (
    arith,
    returns-post_rounds left (suc n) true ((acts ++ sleep delay ∷ []) ++ send n ∷ []),
    returns-post_rounds left (suc n) true (acts ++ send n ∷ []),
  )

  sends_more-post_rounds :
      (left n : ℕ) (once : Bool) (acts : List Act)
      → sends acts ≤ sends (post_rounds left n once acts).1
  unfolding post_rounds
  sends_more-post_rounds zero n once acts = ground arith
  sends_more-post_rounds (suc left) n once acts =
      grind (arith, sends-append, sends_more-post_rounds left (suc n) true)

  first_post : (left : ℕ) → 1 ≤ sends (post_rounds (suc left) 0 false []).1
  unfolding post_rounds
  first_post left =
      let more : 1 ≤ sends (post_rounds left 1 true (send 0 ∷ [])).1 =
        omega (arith, sends_more-post_rounds left 1 true (send 0 ∷ [])) in
      ground arith

  -- A delivery returns whatever the endpoint answers, an exception included, after at least one
  -- request and at most one more than the configured retries.
  pub post_ends :
      (retries : ℕ)
      → (is_returned (post retries []).0 ≡ true)
        × (1 ≤ sends (post retries []).1)
        × (sends (post retries []).1 ≤ retries + 1)
  unfolding post
  post_ends retries = (
    returns-post_rounds (suc (max retries 0)) 0 false [],
    first_post (max retries 0),
    omega (arith, sends-post_rounds (suc (max retries 0)) 0 false []),
  )

  -- A delivery whose first request succeeds makes no other, and no delay.
  pub post_at_once :
      (retries status : ℕ)
      → answer 0 ≡ ok status
      → is_ok status ≡ true
      → post retries [] ≡ (ok true, send 0 ∷ [])
  unfolding post post_rounds
  post_at_once retries status h k = ground arith
