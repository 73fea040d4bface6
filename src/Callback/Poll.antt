-- ===== src/Callback/Poll.antt =====
-- The accepting and the polling of async messages: handleAsyncAccept, handlePoll and
-- pollRetryAfter of internal/gateway/async.go. Times are numbers of nanoseconds; the API server's
-- answers and the authentication of the request are arguments.
use kubeclaw.Prelude.{
  ℕ, ◌+◌, ◌-◌, ◌*◌, ◌≤◌, String, Bool, true, false, not, Option, none, some, ltb, leb, ◌==◌, ◌&&◌,
  str_eq, if◌then◌else◌, ◌≡◌, arith, ◌↔◌,
}

abbrev second : ℕ
second = 1000000000

-- asyncTTL
abbrev pub async_ttl : ℕ
async_ttl = 3600 * second

unfoldable pub poll_retry_after : ℕ → ℕ
poll_retry_after elapsed =
    if ltb elapsed (2 * second)
    then 2
    else if ltb elapsed (6 * second)
    then 4
    else if ltb elapsed (14 * second)
    then 8
    else if ltb elapsed (30 * second)
    then 16
    else 30

pub record Channel : Type 0 where
  pub namespace : String
  pub name : String

pub record AsyncRecord : Type 0 where
  pub created_at : ℕ
  pub channel_namespace : String
  pub channel_name : String
  pub payload : Option String

-- Get: an error, no such record, or the record
pub data Lookup : Type 0 where
  get_failed not_found : Lookup
  found : AsyncRecord → Lookup

pub data PollReply : Type 0 where
  unauthorized missing unavailable : PollReply
  bad_request : PollReply
  invalid_path : PollReply  -- a 404 with an error body
  accepted : ℕ → PollReply  -- 202 with its Retry-After
  payload : String → PollReply

pub record Poll : Type 0 where
  pub is_get : Bool
  pub valid_id : Bool  -- requestId is not empty and has no slash
  pub channel_path : String
  pub channel : Option Channel  -- ChannelByPath
  pub authentic : Bool  -- authenticatePoll
  pub now : ℕ

abbrev pub same_channel : AsyncRecord → Channel → Bool
same_channel r c = str_eq r.channel_namespace c.namespace && str_eq r.channel_name c.name

-- handlePoll from the record on
unfoldable pub answer_with : ℕ → Channel → AsyncRecord → PollReply
unfolding poll_retry_after
answer_with now c r =
    if not (same_channel r c)
    then missing
    else if ltb async_ttl (now - r.created_at)
    then missing
    else elim r.payload [
      | none ↦ accepted (poll_retry_after (now - r.created_at))
      | some body ↦ payload body
    ]

unfoldable pub answer : ℕ → Channel → Lookup → PollReply
unfolding answer_with
answer now c get_failed = unavailable
answer now c not_found = missing
answer now c (found r) = answer_with now c r

unfoldable pub handle_poll : Poll → Lookup → PollReply
unfolding answer
handle_poll q get =
    if not q.is_get
    then unauthorized
    else if not q.valid_id
    then invalid_path
    else if str_eq q.channel_path ""
    then bad_request
    else elim q.channel [
      | none ↦ unauthorized
      | some c ↦ if q.authentic then answer q.now c get else unauthorized
    ]

pub data AcceptReply : Type 0 where
  over_cap create_failed : AcceptReply
  accepted_message : AcceptReply

-- handleAsyncAccept: the count, none for an error, and whether Create succeeds. The reply, and
-- whether the pipeline is started.
unfoldable pub handle_async_accept : ℕ → Option ℕ → Bool → AcceptReply × Bool
handle_async_accept max_pending count created =
    let cap = if max_pending == 0 then 100 else max_pending in
    let full = elim count as (λ (_ : Option ℕ). Bool) [ none ↦ false | some n ↦ leb cap n ] in
    if full
    then (over_cap, false)
    else if created
    then (accepted_message, true)
    else (create_failed, false)

-- Whoever polls through a channel that is not the record's gets the answer for a record that does
-- not exist.
pub handle_poll_conceals :
    (q : Poll) (r : AsyncRecord) (c : Channel)
    → q.channel ≡ some c
    → same_channel r c ≡ false
    → handle_poll q (found r) ≡ handle_poll q not_found
unfolding handle_poll answer answer_with
handle_poll_conceals q r c known other = ground (arith, known, other)

-- the whole condition for an answer from a record
abbrev pub may_read : Poll → Channel → AsyncRecord → Bool
may_read q c r =
    (q.is_get && (q.valid_id && not (str_eq q.channel_path "")))
    && (q.authentic && (same_channel r c && leb q.now (r.created_at + async_ttl)))

-- A poll through a channel gets a record's payload exactly if the record has it, the poll is an
-- authentic GET with its parameters, the channel is the record's, and the hour is not over.
pub handle_poll_payload :
    (q : Poll) (c : Channel) (r : AsyncRecord) (body : String)
    → q.channel ≡ some c
    → (handle_poll q (found r) ≡ payload body) ↔ ((may_read q c r ≡ true) × (r.payload ≡ some body))
unfolding handle_poll answer answer_with
handle_poll_payload q c r body known = ground (arith, known)

-- The wait that a poller is told grows with the age of the record.
pub poll_retry_after_mono : (a b : ℕ) → a ≤ b → poll_retry_after a ≤ poll_retry_after b
unfolding poll_retry_after
poll_retry_after_mono a b le = ground arith
