-- ===== src/RateLimit/Ceiling.antt =====
-- What the token buckets hold and whom they admit.
use kubeclaw.Prelude.{
  ℕ, ◌-◌, String, ◌≡◌, ◌≢◌, Bool, true, false, Option, none, some, List, [], ◌∷◌, arith, ltb, All,
  str_eq_refl, str_eq_of_ne,
}
use kubeclaw.Prelude.Maps.{Map, lookup, lookup-insert}
use kubeclaw.Prelude.Floats.{Floats}
use kubeclaw.RateLimit.{TokenBucket, allow, refill, bucket_of, minutes, per_replica}

module _ (F : Floats) where
  -- the bucket is not above a ceiling
  abbrev pub Capped : F.Float → Option (TokenBucket F) → Type 0
  Capped ceiling none = Unit
  Capped ceiling (some b) = F.lt ceiling b.tokens ≡ false

  -- A request leaves its bucket no fuller than the ceiling of one replica, and the buckets of the
  -- other keys as they were, if no number is below itself and to take one does not go above the
  -- ceiling.
  pub allow-Capped :
      (limit replicas now : ℕ) (key : String) (buckets : Map (TokenBucket F))
      → ltb 0 limit ≡ true
      → F.lt (per_replica F limit replicas) (per_replica F limit replicas) ≡ false
      → ((x : F.Float)
          → F.lt (per_replica F limit replicas) x ≡ false
          → F.lt (per_replica F limit replicas) (F.sub x (F.of_nat 1)) ≡ false)
      → let after = (allow F limit key replicas now buckets).1 in
        Capped (per_replica F limit replicas) (lookup key after)
        × ((other : String) → key ≢ other → lookup other after ≡ lookup other buckets)
  unfolding allow refill
  allow-Capped limit replicas now key buckets limited irrefl pred =
      let ceiling = per_replica F limit replicas in
      let b : TokenBucket F = refill F ceiling now (bucket_of F ceiling now (lookup key buckets)) in
      (
        ground (
          arith,
          lookup-insert key key b buckets,
          lookup-insert key key (record b { tokens = F.sub b.tokens (F.of_nat 1) }) buckets,
          str_eq_refl key,
          pred b.tokens,
          irrefl,
        ),
        λ other apart. ground (
          arith,
          lookup-insert key other b buckets,
          lookup-insert key other (record b { tokens = F.sub b.tokens (F.of_nat 1) }) buckets,
          str_eq_of_ne key other apart,
        ),
      )

  -- one request of a key after another, at its time and with the replicas that there are then
  abbrev pub answers : ℕ → String → List (ℕ × ℕ) → Map (TokenBucket F) → List Bool
  answers limit key [] buckets = []
  answers limit key ((now, replicas) ∷ rs) buckets =
      let (ok, after) = allow F limit key replicas now buckets in ok ∷ answers limit key rs after

  -- the limit is below one request for each replica
  abbrev pub Starved : ℕ → ℕ × ℕ → Type 0
  Starved limit (now, replicas) =
      (F.le (F.of_nat 1) (per_replica F limit replicas) ≡ false)
      × ((x : F.Float)
          → F.lt (per_replica F limit replicas) x ≡ false
          → F.le (F.of_nat 1) x ≡ false)

  refill_starved :
      (ceiling : F.Float) (now : ℕ) (b : TokenBucket F)
      → F.le (F.of_nat 1) ceiling ≡ false
      → ((x : F.Float) → F.lt ceiling x ≡ false → F.le (F.of_nat 1) x ≡ false)
      → let c = refill F ceiling now b in F.le (F.of_nat 1) c.tokens ≡ false
  unfolding refill
  refill_starved ceiling now b low under =
      let added = F.add b.tokens (F.mul (minutes F (now - b.last_refill)) ceiling) in
      ground (arith, under b.tokens, under added)

  -- A limit below one for each replica refuses every request, whatever time goes by, from any
  -- buckets.
  pub answers-Starved :
      (limit : ℕ) (key : String) (requests : List (ℕ × ℕ)) (buckets : Map (TokenBucket F))
      → ltb 0 limit ≡ true
      → All (Starved limit) requests
      → All (λ ok. ok ≡ false) (answers limit key requests buckets)
  unfolding allow refill
  answers-Starved limit key [] buckets limited starved = tt
  answers-Starved limit key ((now, replicas) ∷ rs) buckets limited starved = (
    ground (
      arith,
      refill_starved (per_replica F limit replicas) now
          (bucket_of F (per_replica F limit replicas) now (lookup key buckets)) starved.0.0
          starved.0.1,
    ),
    answers-Starved limit key rs (allow F limit key replicas now buckets).1 limited starved.1,
  )
