-- ===== src/Agent/Idle.antt =====
-- evaluateActivity of internal/controller/agent_controller.go: when an agent goes idle, comes back
-- or is sent to hibernate.
use kubeclaw.Prelude.{
  ℕ, ◌+◌, ◌*◌, String, Bool, true, false, not, ◌&&◌, Option, none, some, List, [], ◌∷◌, map, any,
  ltb, leb, ◌==◌, if◌then◌else◌,
}
use kubeclaw.Activity.{merged_activity}
use kubeclaw.AgentTask.{Requeue, again, later}
use kubeclaw.AgentTask.Drive.{second}
use kubeclaw.Agent.{running, idle, hibernating, AgentStatus, Replica, set_phase, to_seconds}
use kubeclaw.Agent.Checks.{Effective}

abbrev pub activity_cache_window : ℕ
activity_cache_window = 15 * second

-- the later of a time and a stamp
unfoldable pub floored : ℕ → Option ℕ → ℕ
floored last none = last
floored last (some stamp) = if ltb last stamp then stamp else last

-- the case AgentRunning
unfoldable pub evaluate_running : ℕ → Effective → ℕ → AgentStatus → AgentStatus × Requeue
unfolding floored set_phase
evaluate_running now eff last s =
    let marker = floored last s.last_activity in
    if ltb (marker + eff.idle_timeout) now
    then (record (set_phase now idle s) { last_activity = some marker }, again)
    else (s, later activity_cache_window)

-- the start of the silence; `synthetic` where no replica has a record of the agent
unfoldable pub silence_start : Bool → ℕ → Option ℕ → ℕ
unfolding floored
silence_start synthetic last none = last
silence_start true last (some stamp) = stamp
silence_start false last (some stamp) = floored last (some stamp)

unfoldable pub fresh_activity : Bool → ℕ → Option ℕ → Bool
fresh_activity synthetic last none = false
fresh_activity synthetic last (some stamp) = not synthetic && ltb stamp (to_seconds last)

-- the case AgentIdle
unfoldable pub evaluate_idle : ℕ → Effective → Bool → ℕ → AgentStatus → AgentStatus × Requeue
unfolding silence_start fresh_activity set_phase
evaluate_idle now eff synthetic last s =
    if fresh_activity synthetic last s.last_activity
    then (record (set_phase now running s) { last_activity = some last }, again)
    else if eff.hibernation_enabled
        && ltb
            (silence_start synthetic last s.last_activity
              + (eff.idle_timeout + eff.hibernation_delay))
            now
    then (set_phase now hibernating s, again)
    else (s, later activity_cache_window)

unfoldable pub evaluate_phase : ℕ → Effective → Bool → ℕ → AgentStatus → AgentStatus × Requeue
unfolding evaluate_running evaluate_idle
evaluate_phase now eff synthetic last s = elim s.phase [
  | running ↦ evaluate_running now eff last s
  | idle ↦ evaluate_idle now eff synthetic last s
  | _ ↦ (s, later activity_cache_window)
]

-- whether some replica has watched for an idle timeout
unfoldable pub qualified : ℕ → ℕ → List Replica → Bool
qualified now timeout reachable = any (λ (r : Replica). leb (r.started_at + timeout) now) reachable

abbrev pub unknown_wait : ℕ
unknown_wait = 30 * second

-- without a record: the last transition stands for the last activity
unfoldable pub evaluate_silent : ℕ → Effective → List Replica → AgentStatus → AgentStatus × Requeue
unfolding evaluate_phase qualified
evaluate_silent now eff reachable s = elim s.phase_transition [
  | none ↦ (s, later unknown_wait)
  | some since ↦
      if qualified now eff.idle_timeout reachable
      then evaluate_phase now eff true since s
      else (s, later unknown_wait)
]

unfoldable pub evaluate_reachable :
    ℕ → String → Effective → List Replica → AgentStatus → AgentStatus × Requeue
unfolding evaluate_phase evaluate_silent merged_activity
evaluate_reachable now name eff reachable s =
    elim (merged_activity (map (λ (r : Replica). r.agents) reachable) name eff.activity_source) [
      | none ↦ evaluate_silent now eff reachable s
      | some last ↦ evaluate_phase now eff false last s
    ]

-- evaluateActivity
unfoldable pub evaluate_activity :
    ℕ → String → Effective → Option (List Replica × ℕ) → AgentStatus → AgentStatus × Requeue
unfolding evaluate_reachable
evaluate_activity now name eff none s =
    (record s { gateway_reachable = some false }, later unknown_wait)
evaluate_activity now name eff (some ([], total)) s =
    (record s { gateway_reachable = some false }, later unknown_wait)
evaluate_activity now name eff (some (r ∷ rs, total)) s =
    if total == 0
    then (record s { gateway_reachable = some false }, later unknown_wait)
    else evaluate_reachable now name eff (r ∷ rs) (record s { gateway_reachable = some true })
