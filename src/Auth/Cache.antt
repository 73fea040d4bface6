-- ===== src/Auth/Cache.antt =====
-- How long the cache of internal/gateway/tokenauth.go stands by an approval.
use kubeclaw.Prelude.{
  ℕ, ◌+◌, ◌≤◌, ◌<◌, String, Option, none, some, List, str_eq_refl, ◌≡◌, refl, ap, sym, ◌∙◌, arith,
}
use kubeclaw.Prelude.Maps.{Map, lookup, lookup-insert}
use kubeclaw.Auth.{
  Tokens, CacheEntry, username, unauthenticated, TokenAnswer, namespace_is, rejected, jwt_expiry,
  cache_ttl, namespace_from_username, fresh_entry, review_token, authenticate, token_cache_max_ttl,
  token_cache_safety_margin,
}

ttl-le : (exp : Option ℕ) (now : ℕ) → cache_ttl exp now ≤ token_cache_max_ttl
unfolding cache_ttl
ttl-le none now = ground arith
ttl-le (some exp) now = ground arith

ttl_margin :
    (exp now later : ℕ)
    → now ≤ later
    → later < now + cache_ttl (some exp) now
    → later + token_cache_safety_margin < exp
unfolding cache_ttl
ttl_margin exp now later order within = ground arith

entry_after :
    (k : Tokens) (now : ℕ) (token parts : List String) (ns : String) (cache : Map CacheEntry)
    → k.review token ≡ username parts
    → namespace_from_username parts ≡ some ns
    → lookup (k.digest token) (review_token k now token cache).1
      ≡ some (record { namespace = ns; expires = now + cache_ttl (jwt_expiry k.claim token) now })
unfolding review_token
entry_after k now token parts ns cache approved named =
    rw (approved, named, review_token)
      (lookup-insert (k.digest token) (k.digest token) _ cache
        ∙ rw (str_eq_refl (k.digest token)) refl)

-- the rest of the life of an approval
pub record Within (k : Tokens) (token : List String) (now later : ℕ) : Type 0 where
  pub capped : later < now + token_cache_max_ttl
  pub margin :
      (exp : ℕ) → jwt_expiry k.claim token ≡ some exp → later + token_cache_safety_margin < exp

hit-Within :
    (k : Tokens) (token : List String) (now later : ℕ) (ns got : String)
    → now ≤ later
    → fresh_entry later
        (some (record { namespace = ns; expires = now + cache_ttl (jwt_expiry k.claim token) now }))
      ≡ some got
    → Within k token now later
unfolding fresh_entry
hit-Within k token now later ns got order hit =
    let within : later < now + cache_ttl (jwt_expiry k.claim token) now = ground arith in
    record {
      capped = ground (arith, within, ttl-le (jwt_expiry k.claim token) now);
      margin = λ exp q.
          ttl_margin exp now later order (ground (arith, within, ap (λ x. cache_ttl x now) q));
    }

refused :
    (r : Tokens) (after : ℕ) (token : List String) (cache : Map CacheEntry) (got : String)
    → r.review token ≡ unauthenticated
    → (review_token r after token cache).0 ≡ namespace_is got
    → ⊥
unfolding review_token
refused r after token cache got revoked h = impossible (sym (rw (revoked, review_token) refl) ∙ h)
  where
    impossible : rejected ≡ namespace_is got → ⊥
    impossible e = ground arith

-- A token that was approved at one moment, and whose TokenReview says no at a later one, passes then
-- only if less than five minutes have gone by and its expiry, if it has one, is more than a minute
-- ahead.
pub authenticate_revoked :
    (k r : Tokens) (now later after : ℕ) (token parts : List String) (ns got : String)
    (cache : Map CacheEntry)
    → k.review token ≡ username parts
    → namespace_from_username parts ≡ some ns
    → r.digest token ≡ k.digest token
    → r.review token ≡ unauthenticated
    → now ≤ later
    → (authenticate r later after token (review_token k now token cache).1).0 ≡ namespace_is got
    → Within k token now later
unfolding authenticate
authenticate_revoked k r now later after token parts ns got cache approved named same revoked order
      passed =
    by_hit (fresh_entry later (lookup (r.digest token) cache₁)) refl passed
  where
    cache₁ : Map CacheEntry
    cache₁ = (review_token k now token cache).1

    by_hit :
        (o : Option String)
        → fresh_entry later (lookup (r.digest token) cache₁) ≡ o
        → (elim o as (λ _. TokenAnswer × Map CacheEntry) [
          | some n ↦ (namespace_is n, cache₁)
          | none ↦ review_token r after token cache₁
        ]).0
          ≡ namespace_is got
        → Within k token now later
    by_hit (some n) q h = hit-Within k token now later ns n order (
        sym (
          ap (fresh_entry later) (
            ap (λ d. lookup d cache₁) same ∙ entry_after k now token parts ns cache approved named))
        ∙ q)
    by_hit none q h = absurd (refused r after token cache₁ got revoked h)
