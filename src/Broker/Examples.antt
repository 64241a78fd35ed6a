-- ===== src/Broker/Examples.antt =====
-- A broker that behaves as documented, and the routes of one service.
use cxone_flow_buildwork.Prelude.{
  ℕ, zero, suc, String, ◌≡◌, refl, Bool, true, false, ◌&&◌, ◌==◌, [], ◌∷◌, arith, if◌then◌else◌,
}
use cxone_flow_buildwork.Broker.{Key, setup, scan_input}
use cxone_flow_buildwork.Broker.Delivery.{IsTopicMatch, through, IsBroker}
use cxone_flow_buildwork.Broker.Routing.{pr_feedback, topic_of, queue_of, published_to_one_queue}

-- `#` stands at the end only, as in the bindings.
abbrev pub compare : Key → Key → Bool
compare [] [] = true
compare [] (w ∷ ws) = false
compare (p ∷ ps) [] = p == "#"
compare (p ∷ ps) (w ∷ ws) =
    let rest = compare ps ws in if p == "#" then true else if p == "*" then rest else p == w && rest

compare-hash : (ws : Key) → compare ("#" ∷ []) ws ≡ true
compare-hash [] = refl
compare-hash (w ∷ ws) = refl

compare_lem : IsTopicMatch compare
compare_lem = record {
  end_end = refl;
  end_word = λ w ws. refl;
  word_end = λ p ps h. h;
  word_word = λ p w ps ws h. ground arith;
  star = λ w ps ws. refl;
  hash = compare-hash;
}

-- Two rounds of bindings reach every queue.
abbrev pub delivered_in : ℕ → String → Key → String → Bool
delivered_in zero source key q = false
delivered_in (suc n) source key q =
    through compare (delivered_in n) (setup (λ tag. "tag") []) source key q

abbrev pub delivered : String → Key → String → Bool
delivered = delivered_in 2

pub delivered_lem : IsBroker (setup (λ tag. "tag") []) compare delivered
unfolding setup
delivered_lem = record { is_topic_match = compare_lem; delivers_lem = λ source key q. refl }

published_to_one_queue_example :
    delivered scan_input (topic_of pr_feedback ("gh" ∷ [])) "cx:pr:PR Feedback"
    ≡ (queue_of pr_feedback == "cx:pr:PR Feedback")
published_to_one_queue_example =
    published_to_one_queue (λ tag. "tag") [] compare delivered delivered_lem pr_feedback "gh"
      "cx:pr:PR Feedback"

-- The same broker with one resolver tag.
abbrev delivered_tagged_in : ℕ → String → Key → String → Bool
delivered_tagged_in zero source key q = false
delivered_tagged_in (suc n) source key q =
    through compare (delivered_tagged_in n) (setup (λ tag. tag) ("java" ∷ [])) source key q

delivered_tagged_lem : IsBroker (setup (λ tag. tag) ("java" ∷ [])) compare (delivered_tagged_in 2)
unfolding setup
delivered_tagged_lem = record { is_topic_match = compare_lem; delivers_lem = λ source key q. refl }
