-- ===== src/Broker/Delivery.antt =====
-- What the program relies on of RabbitMQ: how a topic exchange compares a key with a binding's, and
-- how a message goes from an exchange through its bindings to queues.
use cxone_flow_buildwork.Prelude.{String, ◌≡◌, Bool, true, false, ◌&&◌, ◌||◌, ◌==◌, List, [], ◌∷◌}
use cxone_flow_buildwork.Broker.{Key, Binding, Destination, exchange, queue, fanout, topic}

abbrev pub is_wild : String → Bool
is_wild p = p == "*" || p == "#"

-- The comparison of a topic exchange: `*` stands for one word, `#` for any number of words.
pub record IsTopicMatch (matches : Key → Key → Bool) : Type 0 where
  pub end_end : matches [] [] ≡ true
  pub end_word : (w : String) (ws : Key) → matches [] (w ∷ ws) ≡ false
  pub word_end : (p : String) (ps : Key) → (p == "#") ≡ false → matches (p ∷ ps) [] ≡ false
  pub word_word :
      (p w : String) (ps ws : Key)
      → is_wild p ≡ false
      → matches (p ∷ ps) (w ∷ ws) ≡ (p == w && matches ps ws)
  pub star : (w : String) (ps ws : Key) → matches ("*" ∷ ps) (w ∷ ws) ≡ matches ps ws
  pub hash : (ws : Key) → matches ("#" ∷ []) ws ≡ true

abbrev accepts : (Key → Key → Bool) → Binding → Key → Bool
accepts matches b key = elim b.source_type [ fanout ↦ true | topic ↦ matches b.key key ]

abbrev arrives : (String → Key → String → Bool) → Destination → Key → String → Bool
arrives delivers (exchange name) key q = delivers name key q
arrives delivers (queue name) key q = name == q

-- Whether one of the bindings brings a message of the exchange `source` to the queue `q`.
abbrev pub through :
    (Key → Key → Bool)
    → (String → Key → String → Bool)
    → List Binding
    → String
    → Key
    → String
    → Bool
through matches delivers [] source key q = false
through matches delivers (b ∷ bindings) source key q =
    (b.source == source && accepts matches b key && arrives delivers b.destination key q)
    || through matches delivers bindings source key q

-- `delivers e key q`: a message published to the exchange `e` under `key` comes to the queue `q`.
pub record IsBroker (bindings : List Binding) (matches : Key → Key → Bool)
    (delivers : String → Key → String → Bool) : Type 0 where
  pub is_topic_match : IsTopicMatch matches
  pub delivers_lem :
      (source : String) (key : Key) (q : String)
      → delivers source key q ≡ through matches delivers bindings source key q
