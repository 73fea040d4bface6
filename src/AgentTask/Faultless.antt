-- ===== src/AgentTask/Faultless.antt =====
-- What the steps of internal/controller/agenttask_controller.go do when no API call fails: retry,
-- and the completion that a task reports.
use kubeclaw.Prelude.{
  String, Bool, true, false, not, Option, none, some, List, [], ◌∷◌, map, if◌then◌else◌, ◌≡◌, refl,
  ap, ◌∙◌,
}
use kubeclaw.Prelude.Maps.{Map}
use kubeclaw.Api.{World, Outcome, after, ◌>>◌, read, write, request}
use kubeclaw.AgentTask.{Task, Pod, TaskStatus, Cluster, provisioning, is_agent_reported}
use kubeclaw.AgentTask.Drive.{
  K, update_status, with_phase, owned_pod, owned_task_pod, mark_deleting, delete_pod, delete_live,
  cleared, when, reset_mailbox, retry, retried,
}

-- a world in which no call fails
abbrev pub calm : Cluster → World Cluster
calm c = record { state = c; faults = [] }

abbrev pub marked : Option Pod → List Pod → List Pod
marked none ps = ps
marked (some p) ps = if p.deleting then ps else map (mark_deleting p.uid) ps

delete_live-calm :
    (pod : Option Pod) (c : Cluster)
    → delete_live pod (calm c) ≡ (calm (record c { pods = marked pod c.pods }), Outcome.ok tt)
unfolding delete_pod write request
delete_live-calm none c = refl
delete_live-calm (some p) c = by_deleting p.deleting
  where
    by_deleting :
        (b : Bool)
        → when (not b) (delete_pod p) (calm c) ≡ (
          calm (record c { pods = if b then c.pods else map (mark_deleting p.uid) c.pods }),
          Outcome.ok tt,
        )
    by_deleting true = refl
    by_deleting false = refl

abbrev pub after_reset : Bool → Option (Map String) → Option (Map String)
after_reset b m = if b then cleared m else m

reset_calm :
    (b : Bool) (c : Cluster)
    → when b reset_mailbox (calm c)
      ≡ (calm (record c { mailbox = after_reset b c.mailbox }), Outcome.ok tt)
unfolding reset_mailbox read write request
reset_calm false c = refl
reset_calm true c = by_mailbox c.mailbox
  where
    by_mailbox :
        (m : Option (Map String))
        → reset_mailbox (calm (record c { mailbox = m }))
          ≡ (calm (record c { mailbox = cleared m }), Outcome.ok tt)
    by_mailbox none = refl
    by_mailbox (some []) = refl
    by_mailbox (some (x ∷ m)) = refl

then_calm :
    {B : Type 0} (m : K (Unit {0})) (k : K B) (w v : World Cluster)
    → m w ≡ (v, Outcome.ok tt)
    → (m >> k) w ≡ k v
then_calm {B} m k w v q = ap (λ r. after {B = B} r (λ _. k)) q

pub retry-calm :
    (t : Task) (reason : String) (s : TaskStatus) (c : Cluster)
    → retry t reason s (calm c) ≡ (
      calm (record c {
        status = with_phase provisioning (retried reason s);
        pods = marked (owned_pod none c.pods) c.pods;
        mailbox = after_reset (is_agent_reported t) c.mailbox;
      }),
      Outcome.ok tt,
    )
unfolding retry owned_task_pod update_status read write request
retry-calm t reason s c =
    let c₁ = record c { status = retried reason s } in
    let c₂ = record c₁ { pods = marked (owned_pod none c.pods) c.pods } in
    let last = update_status (with_phase provisioning (retried reason s)) in
    then_calm (delete_live (owned_pod none c.pods))
      (when (is_agent_reported t) reset_mailbox >> last) (calm c₁) (calm c₂)
      (delete_live-calm (owned_pod none c.pods) c₁)
    ∙ then_calm (when (is_agent_reported t) reset_mailbox) last (calm c₂) _
        (reset_calm (is_agent_reported t) c₂)
