-- ===== src/Callback/Permission.antt =====
-- What an allowlist opens: Allowed of internal/callbackpolicy/policy.go on a policy made by New.
use kubeclaw.Prelude.{
  bytes_eq, Bool, true, false, not, none, some, List, [], ◌∷◌, ◌++◌, ◌&&◌, ◌||◌, any, if◌then◌else◌,
  ◌≡◌, refl, arith, Bool-cases, inl, inr, Option-cases,
}
use kubeclaw.Callback.Address.{Ip, contains, is_private}
use kubeclaw.Callback.Policy.{
  Bytes, Policy, Parsers, to_lower, trim_dot, trim_last_dot, has_suffix, trim_space, is_empty,
  add_entry, new_from, new, matches, floor, internal_in_practice, allowed,
}

-- the name is the suffix or lies below it, whatever the case and the last dot
abbrev pub under_suffix : Bytes → Bytes → Bool
under_suffix host s =
    let name = to_lower (trim_last_dot host) in bytes_eq name s || has_suffix name (46 ∷ s)

-- what one entry of the allowlist matches
abbrev pub entry_matches : Parsers → Bytes → Ip → Bytes → Bool
entry_matches P host ip raw =
    let entry = trim_space raw in
    if is_empty entry then false else elim (P.parse_cidr entry) [
      | some network ↦ contains network ip
      | none ↦ under_suffix host (to_lower (trim_dot entry))
    ]

any-append : {A : Type 0} (f : A → Bool) (xs ys : List A) → any f (xs ++ ys) ≡ any f xs || any f ys
any-append f [] ys = refl
any-append f (x ∷ xs) ys = ground (arith, any-append f xs ys)

module _ (P : Parsers) (host : Bytes) (ip : Ip) where
  matches-add_entry :
      (raw : Bytes) (p : Policy)
      → matches (add_entry P raw p) host ip ≡ matches p host ip || entry_matches P host ip raw
  unfolding add_entry matches
  matches-add_entry raw p =
      let entry = trim_space raw in
      elim (Bool-cases (is_empty entry)) [
        | inl e ↦ rw e ground arith
        | inr e ↦ elim (Option-cases (P.parse_cidr entry)) [
          | inl failed ↦
              rw
                (
                  e,
                  failed,
                  any-append (under_suffix host) p.suffixes (to_lower (trim_dot entry) ∷ []),
                )
                ground arith
          | inr (network, parsed) ↦
              rw (e, parsed, any-append (λ n. contains n ip) p.cidrs (network ∷ [])) ground arith
        ]
      ]

  matches-new_from :
      (entries : List Bytes) (p : Policy)
      → matches (new_from P entries p) host ip
        ≡ matches p host ip || any (entry_matches P host ip) entries
  unfolding new_from matches
  matches-new_from [] p = ground arith
  matches-new_from (raw ∷ entries) p =
      ground (arith, matches-new_from entries (add_entry P raw p), matches-add_entry raw p)

  pub matches-new :
      (entries : List Bytes)
      → matches (new P entries) host ip ≡ any (entry_matches P host ip) entries
  unfolding new matches
  matches-new entries = matches-new_from entries (record { suffixes = []; cidrs = [] })

  -- A callback may go where no part of the floor lies, and either an entry of the allowlist
  -- matches or the address is public.
  pub allowed-new :
      (entries : List Bytes)
      → allowed (new P entries) host ip
        ≡ not (floor ip)
          && (any (entry_matches P host ip) entries
              || (not (is_private ip) && not (any (λ n. contains n ip) internal_in_practice)))
  unfolding allowed
  allowed-new entries = rw (matches-new entries) ground arith

  -- More entries take away no permission, wherever they stand.
  pub allowed-append :
      (entries more : List Bytes)
      → allowed (new P entries) host ip ≡ true
      → (allowed (new P (entries ++ more)) host ip ≡ true)
        × (allowed (new P (more ++ entries)) host ip ≡ true)
  allowed-append entries more h = ground (
    arith,
    allowed-new entries,
    allowed-new (entries ++ more),
    allowed-new (more ++ entries),
    any-append (entry_matches P host ip) entries more,
    any-append (entry_matches P host ip) more entries,
  )
