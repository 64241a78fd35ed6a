-- ===== src/Broker/Routing.antt =====
-- Where the workflow services' messages come out, for the bindings that setup() declares.
use cxone_flow_buildwork.Prelude.{
  String, ◌≡◌, refl, Bool, true, false, ◌&&◌, ◌||◌, ◌==◌, eq_iff, contains, Bool-cases, inl, inr,
  some, List, [], ◌∷◌, ◌++◌, arith,
}
use cxone_flow_buildwork.Workflows.{ScanWorkflow, pr, push, push_gen, await, feedback, annotate}
use cxone_flow_buildwork.Broker.{
  Key, Binding, setup, scan_bindings, tag_bindings, resolver_scan, scan_input, scan_wait,
  scan_polling, scan_feedback, scan_annotate, sarif_work, queue_scan_wait, queue_scan_polling,
  queue_feedback_pr, queue_sarif_gen, queue_annotate_pr, pr_topic, push_topic, topic_for_tag,
  queue_resolver_timeout, resolver_scan_dlx, dead_letter_exchange,
}
use cxone_flow_buildwork.Broker.Delivery.{is_wild, IsTopicMatch, through, IsBroker}

-- What the feedback services publish to `cx:Scan In`.
pub data Message : Type 0 where
  awaited : ScanWorkflow → Message
  pr_feedback pr_annotation push_feedback : Message

abbrev pub topic_of : Message → Key → Key
topic_of (awaited pr) moniker = pr_topic await ScanWorkflow.pr moniker
topic_of (awaited push) moniker = push_topic await push_gen moniker
topic_of pr_feedback moniker = pr_topic feedback ScanWorkflow.pr moniker
topic_of pr_annotation moniker = pr_topic annotate ScanWorkflow.pr moniker
topic_of push_feedback moniker = push_topic feedback push_gen moniker

abbrev pub queue_of : Message → String
queue_of (awaited w) = queue_scan_wait
queue_of pr_feedback = queue_feedback_pr
queue_of pr_annotation = queue_annotate_pr
queue_of push_feedback = queue_sarif_gen

module _ (matches : Key → Key → Bool) (delivers : String → Key → String → Bool) where
  through-append :
      (bs cs : List Binding) (source : String) (key : Key) (q : String)
      → through matches delivers (bs ++ cs) source key q
        ≡ (through matches delivers bs source key q || through matches delivers cs source key q)
  through-append [] cs source key q = ground arith
  through-append (b ∷ bs) cs source key q = ground (arith, through-append bs cs source key q)

  through-tag_bindings :
      (queue_name : String → String) (tags : List String) (source : String) (key : Key) (q : String)
      → (resolver_scan == source) ≡ false
      → through matches delivers (tag_bindings queue_name tags) source key q ≡ false
  through-tag_bindings queue_name [] source key q h = ground arith
  through-tag_bindings queue_name (tag ∷ tags) source key q h =
      ground (arith, through-tag_bindings queue_name tags source key q h)

module _ (matches : Key → Key → Bool) (delivers : String → Key → String → Bool)
    (law : IsTopicMatch matches) where
  tag_key :
      (tag : String) (moniker : Key)
      → is_wild tag ≡ false
      → matches
          ("cx" ∷ "res" ∷ "exec" ∷ "sca-resolver" ∷ "run-scan" ∷ tag ∷ "#" ∷ [])
          (topic_for_tag tag moniker)
        ≡ true
  tag_key tag moniker h = ground (
    arith,
    law.word_word "cx" "cx" ("res" ∷ "exec" ∷ "sca-resolver" ∷ "run-scan" ∷ tag ∷ "#" ∷ [])
        ("res" ∷ "exec" ∷ "sca-resolver" ∷ "run-scan" ∷ tag ∷ moniker) refl,
    law.word_word "res" "res" ("exec" ∷ "sca-resolver" ∷ "run-scan" ∷ tag ∷ "#" ∷ [])
        ("exec" ∷ "sca-resolver" ∷ "run-scan" ∷ tag ∷ moniker) refl,
    law.word_word "exec" "exec" ("sca-resolver" ∷ "run-scan" ∷ tag ∷ "#" ∷ [])
        ("sca-resolver" ∷ "run-scan" ∷ tag ∷ moniker) refl,
    law.word_word "sca-resolver" "sca-resolver" ("run-scan" ∷ tag ∷ "#" ∷ [])
        ("run-scan" ∷ tag ∷ moniker) refl,
    law.word_word "run-scan" "run-scan" (tag ∷ "#" ∷ []) (tag ∷ moniker) refl,
    law.word_word tag tag ("#" ∷ []) moniker h,
    law.hash moniker,
    eq_iff tag tag,
  )

  own_tag :
      (queue_name : String → String) (tags : List String) (tag : String) (moniker : Key)
      → is_wild tag ≡ false
      → contains tag tags ≡ true
      → through matches delivers
          (tag_bindings queue_name tags)
          resolver_scan
          (topic_for_tag tag moniker)
          (queue_name tag)
        ≡ true
  own_tag queue_name [] tag moniker w h = cc
  own_tag queue_name (t ∷ tags) tag moniker w h = elim (Bool-cases (tag == t)) [
    | inl same ↦
        let e : tag ≡ t = ground (arith, eq_iff tag t) in
        rw (← e) (ground (arith, tag_key tag moniker w, eq_iff (queue_name tag) (queue_name tag)))
    | inr other ↦ ground (arith, own_tag queue_name tags tag moniker w (ground arith))
  ]

module _ (queue_name : String → String) (tags : List String) (matches : Key → Key → Bool)
    (delivers : String → Key → String → Bool)
    (broker : IsBroker (setup queue_name tags) matches delivers) where
  delivers-setup :
      (source : String) (key : Key) (q : String)
      → (resolver_scan == source) ≡ false
      → (resolver_scan_dlx == source) ≡ false
      → delivers source key q ≡ through matches delivers scan_bindings source key q
  unfolding setup
  delivers-setup source key q h k = grind (
    arith,
    broker.delivers_lem source key q,
    through-append,
    through-tag_bindings matches delivers queue_name tags source key q h,
  )

  delivers-wait :
      (key : Key) (q : String)
      → delivers scan_wait key q
        ≡ (matches ("cx" ∷ "*" ∷ "await" ∷ "*" ∷ "*" ∷ []) key && (queue_scan_wait == q))
  delivers-wait key q = ground (arith, delivers-setup scan_wait key q refl refl)

  delivers-polling :
      (key : Key) (q : String)
      → delivers scan_polling key q
        ≡ (matches ("cx" ∷ "*" ∷ "await" ∷ "*" ∷ "*" ∷ []) key && (queue_scan_polling == q))
  delivers-polling key q = ground (arith, delivers-setup scan_polling key q refl refl)

  delivers-feedback :
      (key : Key) (q : String)
      → delivers scan_feedback key q ≡ (
          matches ("cx" ∷ "pr" ∷ "feedback" ∷ "pull-request" ∷ "*" ∷ []) key
          && (queue_feedback_pr == q))
  delivers-feedback key q = ground (arith, delivers-setup scan_feedback key q refl refl)

  delivers-annotate :
      (key : Key) (q : String)
      → delivers scan_annotate key q ≡ (
          matches ("cx" ∷ "pr" ∷ "annotate" ∷ "pull-request" ∷ "*" ∷ []) key
          && (queue_annotate_pr == q))
  delivers-annotate key q = ground (arith, delivers-setup scan_annotate key q refl refl)

  delivers-sarif :
      (key : Key) (q : String)
      → delivers sarif_work key q ≡ (
          matches ("cx" ∷ "push" ∷ "feedback" ∷ "push-gen-sarif" ∷ "*" ∷ []) key
          && (queue_sarif_gen == q))
  delivers-sarif key q = ground (arith, delivers-setup sarif_work key q refl refl)

  delivers-input :
      (key : Key) (q : String)
      → delivers scan_input key q ≡ (
          delivers scan_wait key q
          || (delivers scan_feedback key q
              || (delivers sarif_work key q || delivers scan_annotate key q)))
  delivers-input key q = ground (arith, delivers-setup scan_input key q refl refl)

  abbrev law : IsTopicMatch matches
  law = broker.is_topic_match

  -- A message of a service whose moniker has no dot comes from `cx:Scan In` to the queue of its
  -- kind, and to no other.
  pub published_to_one_queue :
      (message : Message) (moniker q : String)
      → delivers scan_input (topic_of message (moniker ∷ [])) q ≡ (queue_of message == q)
  published_to_one_queue message moniker q = grind (
    arith, delivers-input, delivers-wait, delivers-feedback, delivers-annotate, delivers-sarif,
    law.star, law.end_end, law.word_word,
  )

  -- When a message waits no longer, the queue that awaited messages wait in hands it to the
  -- exchange of the polls, and it comes to the queue of the polls and to no other.
  pub awaited_comes_to_polls :
      (w : ScanWorkflow) (moniker q : String)
      → (dead_letter_exchange queue_name tags (queue_of (awaited w)) ≡ some scan_polling)
        × (delivers scan_polling (topic_of (awaited w) (moniker ∷ [])) q
            ≡ (queue_scan_polling == q))
  unfolding dead_letter_exchange
  awaited_comes_to_polls pr moniker q =
      (refl, grind (arith, delivers-polling, law.star, law.end_end, law.word_word))
  awaited_comes_to_polls push moniker q =
      (refl, grind (arith, delivers-polling, law.star, law.end_end, law.word_word))

  -- A message of a service whose moniker has a dot comes to no queue: the bindings leave one word
  -- for the moniker.
  pub dotted_moniker_is_lost :
      (message : Message) (first second : String) (rest : Key) (q : String)
      → delivers scan_input (topic_of message (first ∷ second ∷ rest)) q ≡ false
  dotted_moniker_is_lost message first second rest q = grind (
    arith, delivers-input, delivers-wait, delivers-feedback, delivers-annotate, delivers-sarif,
    law.star, law.end_word, law.word_word,
  )

  -- A scan request for a configured tag, which is not `*` or `#`, comes to the queue of that tag.
  pub request_comes_to_its_tag :
      (tag : String) (moniker : Key)
      → is_wild tag ≡ false
      → contains tag tags ≡ true
      → delivers resolver_scan (topic_for_tag tag moniker) (queue_name tag) ≡ true
  unfolding setup
  request_comes_to_its_tag tag moniker w h = grind (
    arith,
    broker.delivers_lem resolver_scan (topic_for_tag tag moniker) (queue_name tag),
    through-append,
    own_tag matches delivers law queue_name tags tag moniker w h,
  )

  -- A scan request that no agent took in time comes to the timeout queue, and to no other.
  pub expired_request_comes_to_timeout :
      (tag : String) (moniker : Key) (q : String)
      → delivers resolver_scan_dlx (topic_for_tag tag moniker) q ≡ (queue_resolver_timeout == q)
  unfolding setup
  expired_request_comes_to_timeout tag moniker q = grind (
    arith,
    broker.delivers_lem resolver_scan_dlx (topic_for_tag tag moniker) q,
    through-append,
    through-tag_bindings matches delivers queue_name tags resolver_scan_dlx
        (topic_for_tag tag moniker) q refl,
    law.word_word,
    law.hash,
  )
