-- ===== src/Ws/Protocol.antt =====
-- backend/src/ws/protocol.js: the messages, what the hub does to the outside, and the constants. Ids,
-- keys, nonces, signatures and reasons are numbers; a payload that only passes through is left out.
use nodeva.Prelude.{ℕ, Bool, Option, none}
use nodeva.Prelude.Int.{ℤ}

-- The messages that answer a request, with what their sender reads back from them.
pub data ReplyKind : Type 0 where
  receipt committed job_accepted release_ack : ReplyKind
  deny commit_failed job_rejected : ℕ → ReplyKind
  reservation_status : Option ℕ → ReplyKind

pub record ReplyMessage : Type 0 where
  pub kind : ReplyKind
  pub reservation_id : Option ℕ
  pub job_id : Option ℕ

-- What a worker sends. A signature that is not text is `none`, a port that is not an integer too;
-- `malformed` is what `decodeEnvelope` throws on, `other` every further type.
pub data Message : Type 0 where
  malformed heartbeat job_result other : Message
  hello : ℕ → Message
  challenge_response : Option ℕ → Message
  peer_addr : Option ℤ → Message
  replies : ReplyMessage → Message

-- The requests of the backend to a node.
pub data Ask : Type 0 where
  reserve_request job_submit reserve_commit status_query reserve_release : Ask

-- How the promise of a request ends.
pub data Outcome : Type 0 where
  node_offline node_timeout : Outcome
  node_refused : ℕ → Outcome
  answered : ReplyKind → Outcome

-- What the backend sends.
pub data Frame : Type 0 where
  bad_envelope unexpected_type expected_hello : Frame
  unknown_node no_challenge bad_signature : Frame
  challenge : ℕ → Frame
  welcome : ℕ → Frame
  asks : Ask → ℕ → Frame
  peer_info : ℕ → ℕ → Option ℕ → ℤ → Frame

-- The close codes.
pub data CloseCode : Type 0 where
  auth_timed_out protocol_violation auth_failed heartbeat_timed_out superseded : CloseCode

-- What a handler does to the sockets, to the callbacks it was given and to the promises. An exception
-- in the `async` message handler is a rejection that nothing handles.
pub data HubEffect : Type 0 where
  sends : ℕ → Frame → HubEffect
  closes : ℕ → CloseCode → HubEffect
  looks_up : ℕ → ℕ → HubEffect
  presence : ℕ → Bool → HubEffect
  beats : ℕ → HubEffect
  finishes_job : ℕ → HubEffect
  settles : ℕ → Outcome → HubEffect
  unhandled_rejection : HubEffect

abbrev pub heartbeat_miss_limit : ℕ
heartbeat_miss_limit = 3

-- The `.then` of each request on the message it got.
abbrev pub outcome_of : Ask → ReplyKind → Outcome
outcome_of reserve_request (deny reason) = node_refused reason
outcome_of job_submit (job_rejected reason) = node_refused reason
outcome_of reserve_commit (commit_failed reason) = node_refused reason
outcome_of status_query (reservation_status s) = answered (reservation_status s)
outcome_of status_query _ = answered (reservation_status none)
outcome_of _ kind = answered kind
