-- ===== src/RateLimit.antt =====
-- The request ceilings of internal/gateway/ratelimit.go: RateLimiter.allow and its callers. The
-- replica count and the clock are arguments; a time is a number of nanoseconds.
pub mod Ceiling
mod Samples
use Prim.Native.String.{◌++◌}
use kubeclaw.Prelude.{
  ℕ, ◌-◌, ◌/◌, ◌%◌, String, Bool, true, false, Option, none, some, List, [], ◌∷◌, ltb, ◌==◌,
  if◌then◌else◌,
}
use kubeclaw.Prelude.Maps.{Map, lookup, insert}
use kubeclaw.Prelude.Floats.{Floats}
use kubeclaw.Budget.Config.{Provider}

-- namespace/model, and the key of a tool, under a prefix
unfoldable pub model_key : String → String → String
model_key ns model = ns ++ "/" ++ model

unfoldable pub tool_key : String → String → String
tool_key ns tool = "mcp:" ++ ns ++ "/" ++ tool

module _ (F : Floats) where
  pub record TokenBucket : Type 0 where
    pub tokens : F.Float
    pub last_refill : ℕ
    pub per_minute : F.Float

  -- time.Duration.Minutes
  unfoldable pub minutes : ℕ → F.Float
  minutes d =
      F.add (F.of_nat (d / 60000000000)) (F.div (F.of_nat (d % 60000000000)) (F.of_nat 60000000000))

  unfoldable pub per_replica : ℕ → ℕ → F.Float
  per_replica limit replicas =
      F.div (F.of_nat limit) (F.of_nat (if ltb replicas 1 then 1 else replicas))

  -- the refill for the time since the last, and the cap at the ceiling; a clock that went back
  -- refills nothing
  unfoldable pub refill : F.Float → ℕ → TokenBucket → TokenBucket
  unfolding minutes
  refill ceiling now b =
      let elapsed = minutes (now - b.last_refill) in
      let due = F.lt (F.of_nat 0) elapsed in
      let tokens = if due then F.add b.tokens (F.mul elapsed ceiling) else b.tokens in
      record {
        tokens = if F.lt ceiling tokens then ceiling else tokens;
        last_refill = if due then now else b.last_refill;
        per_minute = ceiling;
      }

  unfoldable pub new_bucket : F.Float → ℕ → TokenBucket
  new_bucket ceiling now = record { tokens = ceiling; last_refill = now; per_minute = ceiling }

  unfoldable pub bucket_of : F.Float → ℕ → Option TokenBucket → TokenBucket
  unfolding new_bucket
  bucket_of ceiling now none = new_bucket ceiling now
  bucket_of ceiling now (some b) = b

  -- allow, with the buckets after it
  unfoldable pub allow : ℕ → String → ℕ → ℕ → Map TokenBucket → Bool × Map TokenBucket
  unfolding refill bucket_of per_replica
  allow limit key replicas now buckets =
      let ceiling = per_replica limit replicas in
      let b : TokenBucket = refill ceiling now (bucket_of ceiling now (lookup key buckets)) in
      if ltb 0 limit
      then (if F.le (F.of_nat 1) b.tokens
          then (true, insert key (record b { tokens = F.sub b.tokens (F.of_nat 1) }) buckets)
          else (false, insert key b buckets))
      else (true, buckets)

  unfoldable pub allow_model :
      Provider → String → String → ℕ → ℕ → Map TokenBucket → Bool × Map TokenBucket
  unfolding allow model_key
  allow_model p ns model = allow p.requests_per_minute (model_key ns model)

  unfoldable pub allow_tool : ℕ → String → String → ℕ → ℕ → Map TokenBucket → Bool × Map TokenBucket
  unfolding allow tool_key
  allow_tool limit ns tool = allow limit (tool_key ns tool)
