-- ===== src/Activity/Newest.antt =====
-- The merge over the replicas, mergedActivity of internal/controller/agent_activity.go, against what
-- the replicas say.
use kubeclaw.Prelude.{
  ℕ, ◌≤◌, String, Bool, true, false, ltb, Bool-cases, ◌⊎◌, inl, inr, subst, Option, none, some,
  List, [], ◌∷◌, ◌≡◌, refl, sym, ◌∙◌, arith,
}
use kubeclaw.Prelude.Maps.{Map, lookup}
use kubeclaw.Activity.{
  AgentActivity, newer, merged_activity, Source, gateway_only, heartbeat_only, both,
}
use kubeclaw.Activity.Merge.{newer_comm, said, newest, reading, merged_activity-newest}

-- the signals that a source reads
abbrev pub uses_traffic : Source → Bool
uses_traffic heartbeat_only = false
uses_traffic _ = true

abbrev pub uses_heartbeat : Source → Bool
uses_heartbeat gateway_only = false
uses_heartbeat _ = true

-- the source reads time `t` of a record
pub data Reads (source : Source) (a : AgentActivity) (t : ℕ) : Type 0 where
  by_traffic : uses_traffic source ≡ true → a.gateway_traffic ≡ some t → Reads source a t
  by_heartbeat : uses_heartbeat source ≡ true → a.heartbeat ≡ some t → Reads source a t

-- some replica says that the agent was active at `t`
pub data Says (agent : String) (source : Source) (t : ℕ) : List (Map AgentActivity) → Type 0 where
  first :
      (replica : Map AgentActivity) (a : AgentActivity) (rs : List (Map AgentActivity))
      → lookup agent replica ≡ some a
      → Reads source a t
      → Says agent source t (replica ∷ rs)
  later :
      (replica : Map AgentActivity) (rs : List (Map AgentActivity))
      → Says agent source t rs
      → Says agent source t (replica ∷ rs)

abbrev pub AtMost : ℕ → Option ℕ → Type 0
AtMost t none = ⊥
AtMost t (some m) = t ≤ m

-- The newest time that a replica says, and none if none says any.
pub record IsNewest (agent : String) (source : Source) (rs : List (Map AgentActivity))
    (o : Option ℕ) : Type 0 where
  pub said_by : (t : ℕ) → o ≡ some t → Says agent source t rs
  pub bound : (t : ℕ) → Says agent source t rs → AtMost t o

newer_left : (t : ℕ) (a b : Option ℕ) → AtMost t a → AtMost t (newer a b)
unfolding newer
newer_left t none b h = absurd h
newer_left t (some a) none h = h
newer_left t (some a) (some b) h = elim (Bool-cases (ltb a b)) [
  | inl less ↦ rw less (ground arith)
  | inr more ↦ rw more h
]

newer_right : (t : ℕ) (a b : Option ℕ) → AtMost t b → AtMost t (newer a b)
newer_right t a b h = subst (AtMost t) (newer_comm b a) (newer_left t b a h)

newer_either : (t : ℕ) (a b : Option ℕ) → newer a b ≡ some t → (a ≡ some t) ⊎ (b ≡ some t)
unfolding newer
newer_either t a none h = inl h
newer_either t none (some b) h = inr h
newer_either t (some a) (some b) h = ground arith

reading-AtMost :
    (source : Source) (a : AgentActivity) (t : ℕ) → Reads source a t → AtMost t (reading source a)
reading-AtMost gateway_only a t (by_traffic u q) = subst (AtMost t) (sym q) (omega arith)
reading-AtMost gateway_only a t (by_heartbeat u q) = absurd (ground arith)
reading-AtMost heartbeat_only a t (by_traffic u q) = absurd (ground arith)
reading-AtMost heartbeat_only a t (by_heartbeat u q) = subst (AtMost t) (sym q) (omega arith)
reading-AtMost both a t (by_traffic u q) =
    newer_left t a.gateway_traffic a.heartbeat (subst (AtMost t) (sym q) (omega arith))
reading-AtMost both a t (by_heartbeat u q) =
    newer_right t a.gateway_traffic a.heartbeat (subst (AtMost t) (sym q) (omega arith))

reading-Reads :
    (source : Source) (a : AgentActivity) (t : ℕ) → reading source a ≡ some t → Reads source a t
reading-Reads gateway_only a t h = by_traffic refl h
reading-Reads heartbeat_only a t h = by_heartbeat refl h
reading-Reads both a t h = elim (newer_either t a.gateway_traffic a.heartbeat h) [
  | inl q ↦ by_traffic refl q
  | inr q ↦ by_heartbeat refl q
]

newest-AtMost :
    (agent : String) (source : Source) (t : ℕ) (rs : List (Map AgentActivity))
    → Says agent source t rs
    → AtMost t (newest (reading source) agent rs)
newest-AtMost agent source t [] says = elim says [ ]
newest-AtMost agent source t (replica ∷ rs) (first r a rs' found reads) =
    newer_left t (said (reading source) agent replica) (newest (reading source) agent rs) (
      subst (λ o. AtMost t (elim o as (λ _. Option ℕ) [ none ↦ none | some x ↦ reading source x ]))
        (sym found) (reading-AtMost source a t reads))
newest-AtMost agent source t (replica ∷ rs) (later r rs' says) =
    newer_right t (said (reading source) agent replica) (newest (reading source) agent rs)
      (newest-AtMost agent source t rs says)

said-Says :
    (agent : String) (source : Source) (t : ℕ) (replica : Map AgentActivity)
    (rs : List (Map AgentActivity)) (o : Option AgentActivity)
    → lookup agent replica ≡ o
    → elim o as (λ _. Option ℕ) [ none ↦ none | some x ↦ reading source x ] ≡ some t
    → Says agent source t (replica ∷ rs)
said-Says agent source t replica rs none found h = absurd (ground arith)
said-Says agent source t replica rs (some a) found h =
    Says.first replica a rs found (reading-Reads source a t h)

newest-Says :
    (agent : String) (source : Source) (t : ℕ) (rs : List (Map AgentActivity))
    → newest (reading source) agent rs ≡ some t
    → Says agent source t rs
newest-Says agent source t [] h = absurd (ground arith)
newest-Says agent source t (replica ∷ rs) h = elim (newer_either t _ _ h) [
  | inl q ↦ said-Says agent source t replica rs (lookup agent replica) refl q
  | inr q ↦ Says.later replica rs (newest-Says agent source t rs q)
]

-- The merged activity of an agent is a time that some replica says of a signal that the source reads,
-- no earlier than any other such time, and is none only if no replica says one.
pub merged_activity-IsNewest :
    (rs : List (Map AgentActivity)) (agent : String) (source : Source)
    → IsNewest agent source rs (merged_activity rs agent source)
merged_activity-IsNewest rs agent source =
    let same = merged_activity-newest rs agent source in
    record {
      said_by = λ t h. newest-Says agent source t rs (sym same ∙ h);
      bound = λ t says. subst (AtMost t) (sym same) (newest-AtMost agent source t rs says);
    }
