-- ===== src/RateLimit/Samples.antt =====
-- Ten requests a minute over two replicas, and one over two: the theorems at inputs that meet
-- their hypotheses.
use kubeclaw.Prelude.{ℕ, String, ◌≡◌, ◌≢◌, refl, false, List, [], ◌∷◌, arith, All}
use kubeclaw.Prelude.Maps.{lookup}
use kubeclaw.Prelude.Floats.{fixed}
use kubeclaw.RateLimit.{allow, per_replica}
use kubeclaw.RateLimit.Ceiling.{Capped, allow-Capped, answers, answers-Starved}

allow-Capped_example :
    let after = (allow fixed 10 "team/m" 2 5 []).1 in
    Capped fixed (per_replica fixed 10 2) (lookup "team/m" after)
    × ((other : String) → "team/m" ≢ other → lookup other after ≡ lookup other [])
unfolding per_replica
allow-Capped_example = allow-Capped fixed 10 2 5 "team/m" [] refl refl (λ x h. ground arith)

abbrev two_requests : List (ℕ × ℕ)
two_requests = (0, 2) ∷ (60000000000, 2) ∷ []

answers-Starved_example : All (λ ok. ok ≡ false) (answers fixed 1 "team/m" two_requests [])
unfolding per_replica
answers-Starved_example =
    answers-Starved fixed 1 "team/m" two_requests [] refl
      ((refl, λ x h. ground arith), ((refl, λ x h. ground arith), tt))
