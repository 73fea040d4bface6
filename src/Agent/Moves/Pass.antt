-- ===== src/Agent/Moves/Pass.antt =====
-- One pass makes one move, whichever of its API calls fail: Reconcile of
-- internal/controller/agent_controller.go.
use kubeclaw.Prelude.{
  ℕ, String, Bool, true, false, not, ◌&&◌, str_eq, Option, none, some, is_some, List, [], ◌∷◌,
  if◌then◌else◌, ◌≡◌, refl, ap, sym, subst, ◌∙◌,
}
use kubeclaw.Api.{◌>>◌, pure, write}
use kubeclaw.Api.Yields.{
  Yields, Any, pure-Yields, raise-Yields, if-Yields, bind-Yields, read-Yields, write-Yields,
  then-Yields,
}
use kubeclaw.AgentTask.{Requeue, finish, later, Got, got, not_found, get_error}
use kubeclaw.AgentTask.Reconcile.{gate_requeue}
use kubeclaw.AgentTask.Drive.{cert_wait_requeue}
use kubeclaw.Agent.{
  pending, provisioning, AgentStatus, Agent, AgentClass, AgentEnv, same_phase, set_phase, set_ready,
}
use kubeclaw.Agent.Checks.{Effective}
use kubeclaw.Agent.Converge.{A, agent_certificate, ensure_agent_children, converge_pod}
use kubeclaw.Agent.Pass.{
  gate_on, secrets_gate, ready_gates, await_certificate, evaluated, provision_agent,
}
use kubeclaw.Agent.Phases.{set_phase_phase, set_phase_pre}
use kubeclaw.Agent.Moves.{Move, Moved, sound, is_degraded, is_awake}
use kubeclaw.Agent.Moves.Steps.{
  P, Converged, Started, Alike, put_then-Yields, children-Yields, converge-Yields,
}
use kubeclaw.Agent.Moves.Whole.{sound_of, to_provisioning, evaluated-Moved}

module _ (heard : Bool) (s : AgentStatus) where
  certificate-Yields : Yields (P heard s) Any agent_certificate
  unfolding agent_certificate
  certificate-Yields =
      bind-Yields (P heard s) Any Any _ _ (read-Yields (P heard s) _) (λ cert _. by_cert cert)
    where
      by_cert :
          (o : Option Bool)
          → Yields (P heard s) Any (elim o as (λ _. A Bool) [
            | none ↦ write (λ c. record c { certificate = some false }) >> pure false
            | some ready ↦ pure ready
          ])
      by_cert none =
          then-Yields (P heard s) Any _ (pure false) (write-Yields (P heard s) _ (λ c h. h))
            (pure-Yields (P heard s) Any false tt)
      by_cert (some ready) = pure-Yields (P heard s) Any ready tt

  await-Yields :
      (now : ℕ) (u : AgentStatus)
      → Started heard s u
      → is_awake s.phase ≡ true
      → Yields (P heard s) Any (await_certificate now u)
  unfolding await_certificate
  await-Yields now u st awake =
      put_then-Yields heard s _ (later cert_wait_requeue) (by_pending (same_phase u.phase pending))
    where
      by_pending :
          (b : Bool)
          → Moved heard s (
              set_ready false "CertificateNotReady" (if b then set_phase now provisioning u else u))
      by_pending true =
          let q = set_phase_phase now provisioning u in
          (
            subst (λ x. Move heard s x) (sym q) (to_provisioning heard s s.phase refl awake),
            sound_of _ _ (ap is_degraded q) (set_phase_pre now provisioning u ∙ st.clear),
          )
      by_pending false = st.moved

  pub provision-Yields :
      (e : AgentEnv) (a : Agent) (c : AgentClass) (eff : Effective) (u : AgentStatus)
      → is_some e.activity ≡ heard
      → Started heard s u
      → is_awake s.phase ≡ true
      → Yields (P heard s) Any (provision_agent e a c eff u)
  unfolding provision_agent
  provision-Yields e a c eff u sense st awake =
      bind-Yields (P heard s) Any Any agent_certificate _ certificate-Yields (λ ready _.
        if-Yields (P heard s) Any (not ready) _ _ (await-Yields e.shared.now u st awake) (
          bind-Yields (P heard s) (Alike u) Any (ensure_agent_children a eff u) _
            (children-Yields heard s a eff u)
            (λ u₁ like.
              bind-Yields (P heard s) (Converged heard s) Any (converge_pod e a c u₁) _
                (converge-Yields heard s e a c u₁ (carry u₁ like))
                (λ u₂ con.
                  put_then-Yields heard s (evaluated e a eff u₂).0 (evaluated e a eff u₂).1
                    (evaluated-Moved heard s e a eff u₂ sense awake con)))))
    where
      carry : (v : AgentStatus) → Alike u v → Started heard s v
      carry v like = record {
        awake = ap is_awake like.0 ∙ st.awake;
        was_idle = λ h. st.was_idle (sym like.0 ∙ h);
        still_idle = λ h. like.0 ∙ st.still_idle h;
        clear = like.1 ∙ st.clear;
        moved = (
          subst (λ q. Move heard s q) (sym like.0) st.moved.0,
          ap (λ q. sound q v.pre_degraded) like.0 ∙ ap (sound u.phase) like.1 ∙ st.moved.1,
        );
      }

  gate_on-Yields :
      (o : Got (Unit {0})) (reason : String) (u : AgentStatus) (k : A Requeue)
      → Moved heard s u
      → Yields (P heard s) Any k
      → Yields (P heard s) Any (gate_on o reason u k)
  gate_on-Yields (got _) reason u k m yk = yk
  gate_on-Yields not_found reason u k m yk =
      put_then-Yields heard s (set_ready false reason u) (later gate_requeue) m
  gate_on-Yields get_error reason u k m yk = raise-Yields {A = Requeue} (P heard s) Any

  secrets-Yields :
      (e : AgentEnv) (u : AgentStatus) (names : List String) (k : A Requeue)
      → Moved heard s u
      → Yields (P heard s) Any k
      → Yields (P heard s) Any (secrets_gate e u names k)
  unfolding secrets_gate
  secrets-Yields e u [] k m yk = yk
  secrets-Yields e u (name ∷ names) k m yk =
      gate_on-Yields (e.shared.secret name) "ImagePullSecretMissing" u (secrets_gate e u names k) m
        (secrets-Yields e u names k m yk)

  pub gates-Yields :
      (e : AgentEnv) (eff : Effective) (u : AgentStatus) (k : A Requeue)
      → Moved heard s u
      → Yields (P heard s) Any k
      → Yields (P heard s) Any (ready_gates e eff u k)
  unfolding ready_gates
  gates-Yields e eff u k m yk =
      let handler = if-Yields (P heard s) Any (str_eq eff.handler_config_map "") k _ yk (
        gate_on-Yields (e.config_map eff.handler_config_map) "HandlerConfigMapNotFound" u k m yk) in
      let secrets = secrets-Yields e u eff.pull_secrets _ m handler in
      if-Yields (P heard s) Any (str_eq eff.image "") _ _
        (put_then-Yields heard s (set_ready false "InvalidReference" u) finish m)
        (if-Yields (P heard s) Any (eff.persistence_on && not (str_eq eff.existing_claim "")) _ _
          (gate_on-Yields (e.claim eff.existing_claim) "ExistingClaimNotFound" u _ m secrets)
          secrets)
