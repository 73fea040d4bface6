-- ===== src/Activity/Merge.antt =====
-- What the merge over the replicas gives, and how it follows on the records.
use kubeclaw.Prelude.{
  ℕ, String, Option, none, some, List, [], ◌∷◌, ◌++◌, ◌≡◌, refl, sym, ap, ◌∙◌, arith,
}
use kubeclaw.Prelude.Maps.{Map, lookup}
use kubeclaw.Activity.{
  AgentActivity, newer, merge_from, merged_activity, Source, gateway_only, heartbeat_only, both,
}

pub newer_comm : (a b : Option ℕ) → newer a b ≡ newer b a
unfolding newer
newer_comm none none = refl
newer_comm none (some b) = refl
newer_comm (some a) none = refl
newer_comm (some a) (some b) = ground arith

newer_assoc : (a b c : Option ℕ) → newer (newer a b) c ≡ newer a (newer b c)
unfolding newer
newer_assoc a b none = refl
newer_assoc a none (some c) = ground arith
newer_assoc none (some b) (some c) = ground arith
newer_assoc (some a) (some b) (some c) = ground arith

-- what one replica says of an agent's signals, through a reading of the two
abbrev pub said : (AgentActivity → Option ℕ) → String → Map AgentActivity → Option ℕ
said of agent replica = elim (lookup agent replica) [ none ↦ none | some a ↦ of a ]

-- the newest of what the replicas say
abbrev pub newest : (AgentActivity → Option ℕ) → String → List (Map AgentActivity) → Option ℕ
newest of agent [] = none
newest of agent (replica ∷ rs) = newer (said of agent replica) (newest of agent rs)

-- what a source reads
abbrev pub reading : Source → AgentActivity → Option ℕ
reading gateway_only a = a.gateway_traffic
reading heartbeat_only a = a.heartbeat
reading both a = newer a.gateway_traffic a.heartbeat

abbrev traffic_of : AgentActivity → Option ℕ
traffic_of a = a.gateway_traffic

abbrev heartbeat_of : AgentActivity → Option ℕ
heartbeat_of a = a.heartbeat

newer-none : (a : Option ℕ) → newer none a ≡ a
unfolding newer
newer-none none = refl
newer-none (some a) = refl

merge_from-newest :
    (agent : String) (t h : Option ℕ) (rs : List (Map AgentActivity))
    → merge_from agent t h rs
      ≡ (newer t (newest traffic_of agent rs), newer h (newest heartbeat_of agent rs))
unfolding merge_from
merge_from-newest agent t h [] = refl
merge_from-newest agent t h (replica ∷ rs) =
    said_by (lookup agent replica) (λ t' h'. merge_from-newest agent t' h' rs)
  where
    said_by :
        (o : Option AgentActivity)
        → ((t' h' : Option ℕ)
            → merge_from agent t' h' rs
              ≡ (newer t' (newest traffic_of agent rs), newer h' (newest heartbeat_of agent rs)))
        → elim o as (λ x. Option ℕ × Option ℕ) [
          | none ↦ merge_from agent t h rs
          | some a ↦ merge_from agent (newer t a.gateway_traffic) (newer h a.heartbeat) rs
        ]
          ≡ (
            newer t (
                newer
                  (elim o as (λ x. Option ℕ) [ none ↦ none | some a ↦ traffic_of a ])
                  (newest traffic_of agent rs)),
            newer h (
                newer
                  (elim o as (λ x. Option ℕ) [ none ↦ none | some a ↦ heartbeat_of a ])
                  (newest heartbeat_of agent rs)),
          )
    said_by none rest =
        rw (newer-none (newest traffic_of agent rs), newer-none (newest heartbeat_of agent rs))
          (rest t h)
    said_by (some a) rest =
        rw
          (
            sym (newer_assoc t a.gateway_traffic (newest traffic_of agent rs)),
            sym (newer_assoc h a.heartbeat (newest heartbeat_of agent rs)),
          )
          (rest (newer t a.gateway_traffic) (newer h a.heartbeat))

newer_swap : (a b c d : Option ℕ) → newer (newer a b) (newer c d) ≡ newer (newer a c) (newer b d)
newer_swap a b c d =
    newer_assoc a b (newer c d)
    ∙ ap (newer a)
        (sym (newer_assoc b c d) ∙ ap (λ x. newer x d) (newer_comm b c) ∙ newer_assoc c b d)
    ∙ sym (newer_assoc a c (newer b d))

newest-both :
    (agent : String) (rs : List (Map AgentActivity))
    → newer (newest traffic_of agent rs) (newest heartbeat_of agent rs)
      ≡ newest (reading both) agent rs
unfolding newer
newest-both agent [] = refl
newest-both agent (replica ∷ rs) =
    newer_swap (said traffic_of agent replica) (newest traffic_of agent rs)
      (said heartbeat_of agent replica) (newest heartbeat_of agent rs)
    ∙ ap (λ x. newer x (newer (newest traffic_of agent rs) (newest heartbeat_of agent rs)))
        (both_said (lookup agent replica))
    ∙ ap (newer (said (reading both) agent replica)) (newest-both agent rs)
  where
    both_said :
        (o : Option AgentActivity)
        → newer
            (elim o as (λ x. Option ℕ) [ none ↦ none | some a ↦ traffic_of a ])
            (elim o as (λ x. Option ℕ) [ none ↦ none | some a ↦ heartbeat_of a ])
          ≡ elim o as (λ x. Option ℕ) [ none ↦ none | some a ↦ reading both a ]
    both_said none = newer-none none
    both_said (some a) = refl

-- The merged activity of an agent is the newest of what the replicas say of the signals that the
-- source reads.
pub merged_activity-newest :
    (rs : List (Map AgentActivity)) (agent : String) (source : Source)
    → merged_activity rs agent source ≡ newest (reading source) agent rs
unfolding merged_activity
merged_activity-newest rs agent gateway_only =
    ap (λ (x : Option ℕ × Option ℕ). x.0) (merge_from-newest agent none none rs)
    ∙ newer-none (newest traffic_of agent rs)
merged_activity-newest rs agent heartbeat_only =
    ap (λ (x : Option ℕ × Option ℕ). x.1) (merge_from-newest agent none none rs)
    ∙ newer-none (newest heartbeat_of agent rs)
merged_activity-newest rs agent both =
    ap (λ (x : Option ℕ × Option ℕ). newer x.0 x.1) (merge_from-newest agent none none rs)
    ∙ rw (newer-none (newest traffic_of agent rs), newer-none (newest heartbeat_of agent rs))
        (newest-both agent rs)

newest-append :
    (of : AgentActivity → Option ℕ) (agent : String) (rs more : List (Map AgentActivity))
    → newest of agent (rs ++ more) ≡ newer (newest of agent rs) (newest of agent more)
newest-append of agent [] more = sym (newer-none (newest of agent more))
newest-append of agent (r ∷ rs) more =
    ap (newer (said of agent r)) (newest-append of agent rs more)
    ∙ sym (newer_assoc (said of agent r) (newest of agent rs) (newest of agent more))

-- The order in which groups of replicas answer does not matter.
pub merged_activity_swap :
    (rs more : List (Map AgentActivity)) (agent : String) (source : Source)
    → merged_activity (rs ++ more) agent source ≡ merged_activity (more ++ rs) agent source
merged_activity_swap rs more agent source =
    merged_activity-newest (rs ++ more) agent source
    ∙ newest-append (reading source) agent rs more
    ∙ newer_comm (newest (reading source) agent rs) (newest (reading source) agent more)
    ∙ sym (newest-append (reading source) agent more rs)
    ∙ sym (merged_activity-newest (more ++ rs) agent source)
