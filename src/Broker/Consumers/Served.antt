-- ===== src/Broker/Consumers/Served.antt =====
-- Whether each queue that rabbit_config.py binds is read.
use cxone_flow_buildwork.Prelude.{
  String, ◌==◌, eq_iff, ◌≡◌, refl, Bool, true, false, ◌||◌, ◌&&◌, Option, none, some, List, [], ◌∷◌,
  contains, All, All-append, Bool-cases, inl, inr, arith,
}
use cxone_flow_buildwork.Prelude.Run.{Result, ok, raised}
use cxone_flow_buildwork.Broker.{
  Binding, Destination, exchange, queue, setup, scan_bindings, resolver_bindings, tag_bindings,
  is_request_queue, dead_letter_exchange, queue_sarif_gen, queue_polling_legacy, queue_scan_polling,
  queue_annotate_pr, queue_feedback_pr, queue_resolver_complete, queue_resolver_timeout,
}
use cxone_flow_buildwork.Broker.Consumers.{
  Process, Client, Consumer, agents, created, create_tasks, spawn_agents,
}

abbrev pub queues : List (Client × Process × String) → List String
queues [] = []
queues ((_, _, name) ∷ rest) = name ∷ queues rest

abbrev pub has_source : List Binding → String → Bool
has_source [] name = false
has_source (b ∷ bs) name = b.source == name || has_source bs name

-- where a dead message goes to: an exchange from which something is bound
abbrev pub leads_on : List Binding → Option String → Bool
leads_on bs none = false
leads_on bs (some name) = has_source bs name

-- a consumer with this moniker and queue
abbrev pub is_consumed : List Consumer → (moniker name : String) → Bool
is_consumed [] moniker name = false
is_consumed (c ∷ cs) moniker name =
    (c.moniker == moniker && c.queue_name == name) || is_consumed cs moniker name

abbrev consumer_of : Process → String → String → Consumer
consumer_of p moniker name = record { process = p; moniker = moniker; queue_name = name }

created-ok :
    (r : Result (Unit {0})) (consumer : Consumer) (rest : Result (List Consumer))
    {consumers : List Consumer}
    → created r consumer rest ≡ ok consumers
    → (cs : List Consumer) × (rest ≡ ok cs) × (consumers ≡ consumer ∷ cs)
created-ok (raised e) consumer rest h = absurd (ground arith)
created-ok (ok _) consumer (raised e) h = absurd (ground arith)
created-ok (ok _) consumer (ok cs) h = (cs, refl, cc)

later :
    (c : Consumer) (cs : List Consumer) (m q : String)
    → is_consumed cs m q ≡ true
    → is_consumed (c ∷ cs) m q ≡ true
later c cs m q h = ground arith

own :
    (p : Process) (moniker name q : String) (cs : List Consumer) (names : List String)
    → (contains q names ≡ true → is_consumed cs moniker q ≡ true)
    → contains q (name ∷ names) ≡ true
    → is_consumed (consumer_of p moniker name ∷ cs) moniker q ≡ true
own p moniker name q cs names rest there =
    ground (arith, eq_iff moniker moniker, eq_iff q name, eq_iff name q)

module _ (mq_client : Client → String → Result (Unit {0})) where
  create_tasks-others :
      (moniker : String) (agents : List (Client × Process × String))
      (others : Result (List Consumer)) {consumers : List Consumer}
      → create_tasks mq_client moniker agents others ≡ ok consumers
      → (cs : List Consumer) × (others ≡ ok cs)
        × ((m q : String) → is_consumed cs m q ≡ true → is_consumed consumers m q ≡ true)
        × ((q : String)
            → contains q (queues agents) ≡ true
            → is_consumed consumers moniker q ≡ true)
  unfolding create_tasks
  create_tasks-others moniker [] others {consumers} h =
      (consumers, h, λ m q there. there, λ q there. absurd (ground arith))
  create_tasks-others moniker ((c, p, name) ∷ rest) others {consumers} h =
      let (cs, made, same) =
        created-ok (mq_client c moniker) (consumer_of p moniker name)
          (create_tasks mq_client moniker rest others) h in
      let (found, e, keep, mine) = create_tasks-others moniker rest others made in
      (
        found,
        e,
        λ m q there. rw same (later (consumer_of p moniker name) cs m q (keep m q there)),
        λ q there. rw same (own p moniker name q cs (queues rest) (mine q) there),
      )

  spawn_agents-consumed :
      (monikers : List String) {consumers : List Consumer}
      → spawn_agents mq_client monikers ≡ ok consumers
      → (m q : String) → contains m monikers ≡ true
      → contains q (queues agents) ≡ true
      → is_consumed consumers m q ≡ true
  unfolding spawn_agents
  spawn_agents-consumed [] h m q listed there = absurd (ground arith)
  spawn_agents-consumed (moniker ∷ monikers) {consumers} h m q listed there =
      let (others, e, keep, mine) =
        create_tasks-others moniker agents (spawn_agents mq_client monikers) h in
      elim (Bool-cases (m == moniker)) [
        | inl same ↦ rw ((eq_iff m moniker).0 same) (mine q there)
        | inr other ↦ keep m q (spawn_agents-consumed monikers e m q (ground arith) there)
      ]

or_true : (b : Bool) → (b || true) ≡ true
or_true true = refl
or_true false = refl

requests_again :
    (queue_name : String → String) (tag : String) (tags some_tags : List String)
    → All (λ t. is_request_queue queue_name tags (queue_name t) ≡ true) some_tags
    → All (λ t. is_request_queue queue_name (tag ∷ tags) (queue_name t) ≡ true) some_tags
requests_again queue_name tag tags [] h = tt
requests_again queue_name tag tags (t ∷ some_tags) h =
    (ground (arith, h.0), requests_again queue_name tag tags some_tags h.1)

requests :
    (queue_name : String → String) (tags : List String)
    → All (λ t. is_request_queue queue_name tags (queue_name t) ≡ true) tags
requests queue_name [] = tt
requests queue_name (tag ∷ tags) = (
  ground (arith, eq_iff (queue_name tag) (queue_name tag)),
  requests_again queue_name tag tags tags (requests queue_name tags),
)

module _ (queue_name : String → String) (tags : List String) where
  -- What is bound is read: from an exchange something is bound, and a queue has a consumer of the
  -- service, or its messages, where they are not taken, die into an exchange from which something is.
  abbrev pub IsRead : List Consumer → String → Destination → Type 0
  IsRead consumers moniker (exchange name) = has_source (setup queue_name tags) name ≡ true
  IsRead consumers moniker (queue name) =
      (is_consumed consumers moniker name
        || leads_on (setup queue_name tags) (dead_letter_exchange queue_name tags name))
      ≡ true

  tag-IsRead :
      (consumers : List Consumer) (moniker tag : String)
      → is_request_queue queue_name tags (queue_name tag) ≡ true
      → IsRead consumers moniker (queue (queue_name tag))
  unfolding setup dead_letter_exchange
  tag-IsRead consumers moniker tag h = ground arith

  tags-IsRead :
      (consumers : List Consumer) (moniker : String) (some_tags : List String)
      → All (λ tag. is_request_queue queue_name tags (queue_name tag) ≡ true) some_tags
      → All
          (λ (b : Binding). IsRead consumers moniker b.destination)
          (tag_bindings queue_name some_tags)
  tags-IsRead consumers moniker [] h = tt
  tags-IsRead consumers moniker (tag ∷ some_tags) h =
      (tag-IsRead consumers moniker tag h.0, tags-IsRead consumers moniker some_tags h.1)

  module _ (mq_client : Client → String → Result (Unit {0})) (monikers : List String)
      {consumers : List Consumer} (spawned : spawn_agents mq_client monikers ≡ ok consumers)
      (moniker : String) (listed : contains moniker monikers ≡ true) where
    served : (q : String) → contains q (queues agents) ≡ true → IsRead consumers moniker (queue q)
    served q there =
        ground (arith, spawn_agents-consumed mq_client monikers spawned moniker q listed there)

    scan_bindings-IsRead :
        All (λ (b : Binding). IsRead consumers moniker b.destination) scan_bindings
    unfolding setup dead_letter_exchange
    scan_bindings-IsRead = (
      refl,
      (
        refl,
        (
          refl,
          (
            refl,
            (
              refl,
              (
                refl,
                (
                  refl,
                  (
                    or_true _,
                    (
                      or_true _,
                      (
                        served queue_polling_legacy refl,
                        (
                          served queue_scan_polling refl,
                          (
                            served queue_feedback_pr refl,
                            (served queue_sarif_gen refl, (served queue_annotate_pr refl, tt)),
                          ),
                        ),
                      ),
                    ),
                  ),
                ),
              ),
            ),
          ),
        ),
      ),
    )

    -- No queue and no exchange is left. Of all that setup() binds, for any tags, once the agents of
    -- the workflows are spawned, and for each of their services: an exchange has something bound from
    -- it, and a queue has a consumer of the service or gives its dead messages to such an exchange.
    pub setup-IsRead :
        All (λ (b : Binding). IsRead consumers moniker b.destination) (setup queue_name tags)
    unfolding setup
    setup-IsRead =
        All-append (λ (b : Binding). IsRead consumers moniker b.destination) scan_bindings
          (resolver_bindings queue_name tags) scan_bindings-IsRead
          (
            served queue_resolver_timeout refl,
            All-append (λ (b : Binding). IsRead consumers moniker b.destination)
                (tag_bindings queue_name tags) _
                (tags-IsRead consumers moniker tags (requests queue_name tags))
                (served queue_resolver_complete refl, tt),
          )
