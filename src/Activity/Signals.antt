-- ===== src/Activity/Signals.antt =====
-- What a snapshot shows after a signal of an agent.
use kubeclaw.Prelude.{
  ℕ, String, Option, none, some, [], ◌∷◌, ◌≡◌, ◌≢◌, refl, sym, ap, ◌∙◌, str_eq, str_eq_refl,
  str_eq_of_ne, if◌then◌else◌, Bool-cases, inl, inr,
}
use kubeclaw.Prelude.Maps.{Map, lookup, insert, get_or, lookup-insert}
use kubeclaw.Activity.{
  ActivityEntry, ActivityStore, AgentActivity, with_entry, record_traffic, sources, source_of,
  snapshot, no_entry, unless_zero,
}

-- the entry of an agent, as the wire shows it
abbrev shown : Option ActivityEntry → Option AgentActivity
shown none = none
shown (some e) = some (source_of e)

lookup-sources :
    (agent : String) (m : Map ActivityEntry) → lookup agent (sources m) ≡ shown (lookup agent m)
unfolding sources lookup
lookup-sources agent [] = refl
lookup-sources agent ((a, e) ∷ m) = elim (Bool-cases (str_eq a agent)) [
  | inl same ↦ rw same refl
  | inr other ↦ rw other (lookup-sources agent m)
]

get_or-insert :
    (ns : String) (agents : Map ActivityEntry) (s : ActivityStore)
    → get_or [] ns (insert ns agents s) ≡ agents
get_or-insert ns agents s = rw (lookup-insert ns ns agents s, str_eq_refl ns) refl

agents_after :
    (ns agent : String) (change : ActivityEntry → ActivityEntry) (s : ActivityStore)
    → get_or [] ns (with_entry ns agent change s)
      ≡ insert agent (change (get_or no_entry agent (get_or [] ns s))) (get_or [] ns s)
unfolding with_entry
agents_after ns agent change s =
    get_or-insert ns
      (insert agent (change (get_or no_entry agent (get_or [] ns s))) (get_or [] ns s)) s

snapshot_after :
    (ns agent other : String) (change : ActivityEntry → ActivityEntry) (s : ActivityStore)
    → lookup other (snapshot ns (with_entry ns agent change s))
      ≡ shown (
          if str_eq agent other
          then some (change (get_or no_entry agent (get_or [] ns s)))
          else lookup other (get_or [] ns s))
unfolding snapshot
snapshot_after ns agent other change s =
    lookup-sources other (get_or [] ns (with_entry ns agent change s))
    ∙ ap (λ m. shown (lookup other m)) (agents_after ns agent change s)
    ∙ ap shown (
        lookup-insert agent other (change (get_or no_entry agent (get_or [] ns s)))
          (get_or [] ns s))

-- After traffic of an agent a snapshot of its namespace shows that time beside the heartbeat it
-- had, and shows every other agent as before.
pub snapshot-record_traffic :
    (ns agent : String) (now : ℕ) (s : ActivityStore)
    → let old = get_or no_entry agent (get_or [] ns s) in
      (lookup agent (snapshot ns (record_traffic ns agent now s))
        ≡ some
            (record { gateway_traffic = unless_zero now; heartbeat = unless_zero old.heartbeat }))
      × ((other : String)
          → agent ≢ other
          → lookup other (snapshot ns (record_traffic ns agent now s))
            ≡ lookup other (snapshot ns s))
unfolding record_traffic snapshot source_of
snapshot-record_traffic ns agent now s =
    let change : ActivityEntry → ActivityEntry = λ e. record e { gateway_traffic = now } in
    (
      snapshot_after ns agent agent change s ∙ rw (str_eq_refl agent) refl,
      λ other apart.
          snapshot_after ns agent other change s
          ∙ rw (str_eq_of_ne agent other apart) (sym (lookup-sources other (get_or [] ns s))),
    )
