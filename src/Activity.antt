-- ===== src/Activity.antt =====
-- When an agent was last active: the store of internal/gateway/activity.go, and mergedActivity of
-- internal/controller/agent_activity.go. A time is a number of nanoseconds, with 0 for Go's zero
-- time in the store.
pub mod Merge
pub mod Newest
pub mod Signals
mod Samples
use kubeclaw.Prelude.{
  ℕ, String, Bool, true, false, Option, none, some, List, [], ◌∷◌, ltb, ◌==◌, if◌then◌else◌,
}
use kubeclaw.Prelude.Maps.{Map, lookup, insert, get_or}

pub record ActivityEntry : Type 0 where
  pub gateway_traffic : ℕ
  pub heartbeat : ℕ

abbrev pub no_entry : ActivityEntry
no_entry = record { gateway_traffic = 0; heartbeat = 0 }

-- byNamespace
abbrev pub ActivityStore : Type 0
ActivityStore = Map (Map ActivityEntry)

-- entry, with the change that its caller makes to what it returns
unfoldable pub with_entry :
    String → String → (ActivityEntry → ActivityEntry) → ActivityStore → ActivityStore
with_entry ns agent change s =
    let agents = get_or [] ns s in
    insert ns (insert agent (change (get_or no_entry agent agents)) agents) s

unfoldable pub record_traffic : String → String → ℕ → ActivityStore → ActivityStore
unfolding with_entry
record_traffic ns agent now = with_entry ns agent (λ e. record e { gateway_traffic = now })

unfoldable pub record_heartbeat : String → String → ℕ → ActivityStore → ActivityStore
unfolding with_entry
record_heartbeat ns agent now = with_entry ns agent (λ e. record e { heartbeat = now })

-- activitySource and AgentActivity: a source is none if the replica has no record of it
pub record AgentActivity : Type 0 where
  pub gateway_traffic : Option ℕ
  pub heartbeat : Option ℕ

abbrev pub unless_zero : ℕ → Option ℕ
unless_zero t = if t == 0 then none else some t

unfoldable pub source_of : ActivityEntry → AgentActivity
source_of e = record {
  gateway_traffic = unless_zero e.gateway_traffic;
  heartbeat = unless_zero e.heartbeat;
}

unfoldable pub sources : Map ActivityEntry → Map AgentActivity
unfolding source_of
sources [] = []
sources ((agent, e) ∷ m) = (agent, source_of e) ∷ sources m

-- Snapshot
unfoldable pub snapshot : String → ActivityStore → Map AgentActivity
unfolding sources
snapshot ns s = sources (get_or [] ns s)

-- newer of mergedActivity
unfoldable pub newer : Option ℕ → Option ℕ → Option ℕ
newer current none = current
newer none (some t) = some t
newer (some c) (some t) = if ltb c t then some t else some c

-- the loop of mergedActivity over what the replicas say
unfoldable pub merge_from :
    String → Option ℕ → Option ℕ → List (Map AgentActivity) → Option ℕ × Option ℕ
unfolding newer
merge_from agent traffic heartbeat [] = (traffic, heartbeat)
merge_from agent traffic heartbeat (replica ∷ rs) = elim (lookup agent replica) [
  | none ↦ merge_from agent traffic heartbeat rs
  | some a ↦ merge_from agent (newer traffic a.gateway_traffic) (newer heartbeat a.heartbeat) rs
]

pub data Source : Type 0 where
  gateway_only heartbeat_only both : Source

unfoldable pub merged_activity : List (Map AgentActivity) → String → Source → Option ℕ
unfolding merge_from
merged_activity reachable agent source =
    let (traffic, heartbeat) = merge_from agent none none reachable in
    elim source [
      | heartbeat_only ↦ heartbeat
      | both ↦ newer traffic heartbeat
      | gateway_only ↦ traffic
    ]
