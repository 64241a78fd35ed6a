-- ===== src/Feedback/Client.antt =====
-- AMQPClient of workflows/base_service.py and the delivery of SARIF logs by a message, in
-- workflows/push_feedback_service.py. The broker's client, the parts of a url, the compression and the
-- signature are other packages'.
use cxone_flow_buildwork.Prelude.{
  ℕ, ◌+◌, String, ◌<>◌, ◌≡◌, refl, Bool, true, false, not, ◌&&◌, Option, none, some, List, [], ◌∷◌,
  ◌++◌, arith, if◌then◌else◌,
}
use cxone_flow_buildwork.Prelude.Dict.{Dict, update}
use cxone_flow_buildwork.Prelude.Texts.{has_code, split, lstrip, rstrip}
use cxone_flow_buildwork.Prelude.Run.{Result, ok, raised, Run, pure, call, try, ◌>>◌}

-- ssl_verify is a flag or a path
pub data SslVerify : Type 0 where
  verify : Bool → SslVerify
  authorities : (path : String) → SslVerify

-- the context of a connection, where None is the client's default
pub data Context : Type 0 where
  default_context unchecked : Context
  with_cafile with_capath : (path : String) → Context

-- AMQPClient.__init__: what is registered as a secret, of the url's netloc
abbrev first_part : List String → Option String
first_part [] = none
first_part (part ∷ parts) = some part

unfoldable pub registered_secret : (netloc : String) → Option String
unfolding has_code split
registered_secret netloc = if has_code 64 netloc then first_part (split 64 netloc) else none

module _ (is_file is_dir : String → Bool) (use_ssl : Bool) where
  -- the choice of a context in mq_client
  unfoldable pub context_of : SslVerify → Context
  context_of (verify flag) = if not flag && use_ssl then unchecked else default_context
  context_of (authorities path) =
      if use_ssl
      then (if is_file path
          then with_cafile path
          else if is_dir path
          then with_capath path
          else default_context)
      else default_context

  -- Certificates go unchecked only where the configuration says so, and for a connection by TLS.
  pub context_of-unchecked :
      (v : SslVerify) → context_of v ≡ unchecked → (v ≡ verify false) × (use_ssl ≡ true)
  unfolding context_of
  context_of-unchecked (verify true) h = absurd (ground arith)
  context_of-unchecked (verify false) h = (refl, ground arith)
  context_of-unchecked (authorities path) h = absurd (ground arith)

-- The client that is kept, by its number, and the connections that were made.
pub record ClientState : Type 0 where
  pub client : Option ℕ
  pub connections : List Context

abbrev keep : Result ℕ → Context → ClientState → Result ℕ × ClientState
keep (raised e) ctx st = (raised e, record st { connections = st.connections ++ ctx ∷ [] })
keep (ok c) ctx st = (ok c, record { client = some c; connections = st.connections ++ ctx ∷ [] })

-- mq_client, under its lock
abbrev kept : Option ℕ → Result ℕ → Context → ClientState → Result ℕ × ClientState
kept (some c) connect_robust ctx st = (ok c, st)
kept none connect_robust ctx st = keep connect_robust ctx st

unfoldable pub mq_client : (connect_robust : Result ℕ) → Context → Run ClientState ℕ
mq_client connect_robust ctx st = kept st.client connect_robust ctx st

-- Once a client is made, every later call gives the same one and makes no connection.
pub mq_client-again :
    (first second : Result ℕ) (ctx : Context) (st : ClientState) (c : ℕ)
    → (mq_client first ctx st).0 ≡ ok c
    → mq_client second ctx (mq_client first ctx st).1 ≡ (ok c, (mq_client first ctx st).1)
unfolding mq_client
mq_client-again first second ctx st c h = ground arith

-- AmqpDeliveryAgent.__get_topic
abbrev with_prefix : Option String → String
with_prefix none = ""
with_prefix (some prefix) = rstrip 46 prefix <> "."

abbrev with_suffix : Option String → String
with_suffix none = ""
with_suffix (some suffix) = "." <> lstrip 46 suffix

unfoldable pub get_topic : (moniker : String) → (prefix suffix : Option String) → String
unfolding rstrip lstrip
get_topic moniker prefix suffix = with_prefix prefix <> (moniker <> with_suffix suffix)

-- package_message and __pack_and_publish: a compressed message, and its headers, over which those of
-- the caller win
module _ (compress : String → String) (signature_header : String → String → String × String) where
  unfoldable pub package_message : (shared_secret msg : String) → String × Dict String
  package_message shared_secret msg =
      let packed = compress msg in
      let (alg, hash) = signature_header shared_secret packed in
      (
        packed,
        ("content-encoding", "gzip") ∷ ("x-cx-signature-alg", alg) ∷ ("x-cx-signature", hash) ∷ [],
      )

  unfoldable pub packed : (shared_secret msg : String) → Dict String → String × Dict String
  unfolding package_message update
  packed shared_secret msg msg_headers =
      let (body, headers) = package_message shared_secret msg in (body, update headers msg_headers)

pub data Act : Type 0 where
  open_channel get_exchange publish close : Act

-- How the broker answers.
pub record Broker : Type 0 where
  pub channel : Result (Unit {0})
  pub exchange : Result (Unit {0})
  pub published : Result (Unit {0})
  pub closed : Result (Unit {0})

module _ (b : Broker) where
  -- the body of the `try` once there is a channel; any exception is logged
  publishing : Run (List Act) (Unit {0})
  publishing = try (call get_exchange b.exchange >> call publish b.published) (λ e. pure tt)

  -- __publish_message
  unfoldable pub publish_message : Run (List Act) (Unit {0})
  unfolding publishing
  publish_message acts = elim b.channel [
    | raised e ↦ (ok tt, acts ++ open_channel ∷ [])
    | ok _ ↦ (publishing >> call close b.closed) (acts ++ open_channel ∷ [])
  ]

  abbrev is_close : Act → ℕ
  is_close close = 1
  is_close _ = 0

  abbrev pub closings : List Act → ℕ
  closings [] = 0
  closings (a ∷ acts) = is_close a + closings acts

  -- A delivery never fails but by closing its channel, and a channel that was opened is closed
  -- exactly once, whatever fails in between.
  pub closings-publish_message :
      b.channel ≡ ok tt
      → ((publish_message []).0 ≡ b.closed) × (closings (publish_message []).1 ≡ 1)
  unfolding publish_message
  closings-publish_message opened = (ground arith, ground arith)
