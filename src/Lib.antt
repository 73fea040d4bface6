-- ===== src/Lib.antt =====
-- Kaalm: a Kubernetes operator that runs AI agents behind an LLM gateway. This library models the
-- parts of the gateway and the controller that decide: who may call which model, at what cost, by
-- which provider, and where an answer may be sent.
--
-- How they work together: a request has a caller (Auth), names provider/model and is authorized
-- (Tenancy), held to a request rate (RateLimit), admitted on the provider's budget (Budget.Hard),
-- and tried on the provider and its fallbacks (Fallback), each admitted in its turn; its cost
-- settles into the replica's ledger (Budget.Ledger), which replicas exchange through a ConfigMap
-- (Budget.Exchange) that the controller reduces (Budget.Reducer). An async answer goes to a
-- callback that the policy allows, or to a record that is polled (Callback).
--
-- Prelude: Boolean tests, lists and maps over the native numbers. A Go map[string]V is an
--   association list; a loop over a map reads it in list order, one of the orders Go may take.
--   Prelude/Floats takes float64 and strconv as a record of operations, so that what is said of
--   amounts holds whatever rounding there is.
-- Budget: internal/gateway/budget.go and budget_hard.go, internal/controller/modelprovider_budget.go
--   and the budget part of api/v1beta1/modelprovider_types.go. A method that locks the ledger is a
--   function from the ledger to the new ledger; `now` is the clock in that critical section, and a
--   time is a number of nanoseconds with 0 for Go's zero time. The admission slots of a period are
--   the map `adm`; tokens are uint64 and wrap, and a grant is assumed not to be the 2^64th.
-- Tenancy: internal/gateway/routing.go. The informer cache is a record of lookups (Store) and
--   path.Match an argument (Glob). Tenancy/Qualified splits provider/model names as bytes.
-- Fallback: internal/gateway/fallback.go, forwardOnce of internal/gateway/proxy.go, and
--   api/v1beta1/fallback.go. tryWithFallbacks recurses through walkChildren: here it runs on
--   fuel, of which MaxDepth + 1 is enough, since each descent has first counted an attempt. The
--   upstream's replies are a function of the attempt's number; calls, grants and settles are kept
--   as a list of events, the last first.
-- RateLimit: RateLimiter.allow of internal/gateway/ratelimit.go, with the replica count and the
--   clock as arguments.
-- Callback: internal/callbackpolicy/policy.go, with net.IP as a 32 or 128 bit number, and the
--   accept, retry and polling parts of internal/gateway/async.go. The resolver, the receiver and
--   the API server answer by the number of the attempt (World).
-- ChannelHealth: internal/gateway/channelhealth.go, the observations of each channel's path and the
--   state that a snapshot reports.
-- Activity: internal/gateway/activity.go and mergedActivity of
--   internal/controller/agent_activity.go, an agent's signals in a replica and over the replicas.
-- Session: internal/gateway/mcpsession.go, with HMAC and base64url as a record of functions (Codec).
-- Auth: internal/gateway/identity.go, internal/gateway/tokenauth.go and DualModePaths of
--   internal/gateway/auth.go, the caller of the LLM proxy and of the MCP broker. A certificate is
--   the list of its DNS names; the digest and the payload of a token and the TokenReview are
--   arguments. The Pod at an address does not change during a request. A negative exp claim, which
--   the API server does not approve, is not modelled.
-- Api: the calls of the Kubernetes API that a pass of a controller makes, as a monad over the part
--   of the cluster that the pass touches; a list of Booleans says which of the calls fail, and a
--   failed call returns early.
-- Agent: internal/controller/agent_controller.go and deriveEffectiveSpec of agent_desired.go, over
--   the status of one agent with its Pods, children and wake annotation. Agent/Idle is the decision
--   on idleness, Agent/Pass the whole pass; a status that is stored keeps whole seconds, as the API
--   server does. setPhase reads the wall clock, here the clock of the pass. Agent/Moves has the rows
--   of the table of docs/src/controller/agent-lifecycle.md, and the moves that the table lacks.
-- AgentTask: internal/controller/agenttask_controller.go with what agenttask_desired.go,
--   agent_desired.go and toolgrants.go decide for it. A pass reads the cluster and returns when to
--   come again; the cluster is the status of one task, its Pods, its mailbox and its children, and
--   other writers may change all but the status. AgentTask/Lifecycle is the life of a task by the
--   table of docs/src/controller/task-lifecycle.md, with the moves of the code that the table does
--   not have, and AgentTask/Refine compares the two. The spec of a task does not change during a run.
-- Completion: internal/gateway/completion.go, the report of a task to the gateway, and what the
--   controller reads of the mailbox after the gateway's merge patch.
--
-- A samples module in each part runs it at concrete inputs.
-- Not modelled: HTTP servers and clients and the Kubernetes API, which are arguments or results of
-- the functions; the handler of the LLM proxy around the parts above, the other controllers, the
-- other profiles of auth.go, the translation between wire formats, the MCP broker and the chat
-- platforms; logging, metrics, tracing and generated code.
pub mod Prelude
pub mod Budget
pub mod Tenancy
pub mod Fallback
pub mod RateLimit
pub mod Callback
pub mod ChannelHealth
pub mod Activity
pub mod Session
pub mod Api
pub mod Auth
pub mod Agent
pub mod AgentTask
pub mod Completion
