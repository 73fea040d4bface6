-- ===== src/ChannelHealth.antt =====
-- The delivery observations of channels: internal/gateway/channelhealth.go. A time is a number of
-- nanoseconds; `now` is the clock in the critical section, and `time` the
-- clock just before it.
pub mod Bounds
pub mod Report
mod Samples
use Prim.Native.String.{◌++◌}
use text.Mathlib.Text.{starts_with}
use kubeclaw.Prelude.{
  ℕ, zero, suc, ◌+◌, ◌-◌, String, Bool, true, false, not, ◌&&◌, Option, none, some, List, [], ◌∷◌,
  ltb, leb, ◌==◌, length, filter, if◌then◌else◌, str_eq,
}
use kubeclaw.Prelude.Maps.{Map, get_or, insert}

pub record Observation : Type 0 where
  pub success : Bool
  pub reason : String
  pub last_error : String
  pub time : ℕ

pub record HealthStore : Type 0 where
  pub window : ℕ
  pub observations : Map (List Observation)

-- NewChannelHealthStore
unfoldable pub new_store : ℕ → HealthStore
new_store window = record {
  window = if window == 0 then 300000000000 else window;
  observations = [];
}

-- o.at.After(now - window)
abbrev pub in_window : ℕ → ℕ → Observation → Bool
in_window window now o = ltb now (o.time + window)

-- kept[n:]
abbrev pub drop {ℓ} : {A : Type ℓ} → ℕ → List A → List A
drop zero xs = xs
drop (suc n) [] = []
drop (suc n) (x ∷ xs) = drop n xs

abbrev pub snoc {ℓ} : {A : Type ℓ} → List A → A → List A
snoc [] a = a ∷ []
snoc (x ∷ xs) a = x ∷ snoc xs a

-- the list of a path after one more observation
unfoldable pub kept_with : ℕ → ℕ → Observation → List Observation → List Observation
kept_with window now o list =
    let kept = filter (in_window window now) list in
    let tail : List Observation =
      if ltb 256 (length kept) then drop (length kept - 256) kept else kept in
    snoc tail o

unfoldable pub record_at : String → Observation → ℕ → HealthStore → HealthStore
unfolding kept_with
record_at path o now c = record c {
  observations =
      insert path (kept_with c.window now o (get_or [] path c.observations)) c.observations;
}

unfoldable pub record_success : String → ℕ → ℕ → HealthStore → HealthStore
unfolding record_at
record_success path time now =
    record_at path
      (record { success = true; reason = "WebhookReady"; last_error = ""; time = time }) now

unfoldable pub record_failure : String → String → String → ℕ → ℕ → HealthStore → HealthStore
unfolding record_at
record_failure path reason last_error time now =
    record_at path
      (record { success = false; reason = reason; last_error = last_error; time = time }) now

pub data State : Type 0 where
  success_state failure_state empty_state : State

pub record HealthEntry : Type 0 where
  pub state : State
  pub reason : Option String
  pub timestamp : Option ℕ
  pub last_error : Option String

-- the later of the last observation so far and the next, the earlier of two at one time
unfoldable pub newer : Option Observation → Observation → Option Observation
newer none o = some o
newer (some l) o = if ltb l.time o.time then some o else some l

-- the loop of Snapshot for the successes, or for the failures
unfoldable pub last_from : Bool → ℕ → ℕ → Option Observation → List Observation → Option Observation
unfolding newer
last_from good window now last [] = last
last_from good window now last (o ∷ list) =
    last_from good window now
      (if in_window window now o && (if good then o.success else not o.success)
        then newer last o
        else last)
      list

unfoldable pub report : Option Observation → Option Observation → HealthEntry
report (some s) failure = record {
  state = success_state;
  reason = some s.reason;
  timestamp = some s.time;
  last_error = elim failure [
    | none ↦ none
    | some f ↦ if str_eq f.last_error "" then none else some f.last_error
  ];
}
report none (some f) = record {
  state = failure_state;
  reason = some f.reason;
  timestamp = some f.time;
  last_error = some f.last_error;
}
report none none = record {
  state = empty_state;
  reason = none;
  timestamp = none;
  last_error = none;
}

unfoldable pub entry : ℕ → ℕ → List Observation → HealthEntry
unfolding last_from report
entry window now list =
    report (last_from true window now none list) (last_from false window now none list)

unfoldable pub snapshot_from : String → ℕ → ℕ → Map (List Observation) → Map HealthEntry
unfolding entry
snapshot_from prefix window now [] = []
snapshot_from prefix window now ((path, list) ∷ m) =
    let rest = snapshot_from prefix window now m in
    if starts_with path prefix then (path, entry window now list) ∷ rest else rest

-- Snapshot
unfoldable pub snapshot : String → ℕ → HealthStore → Map HealthEntry
unfolding snapshot_from
snapshot ns now c = snapshot_from ("/channels/" ++ ns ++ "/") c.window now c.observations
