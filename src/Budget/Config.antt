-- ===== src/Budget/Config.antt =====
-- The budget of a ModelProvider: api/v1beta1/modelprovider_types.go, and the readers of it in
-- internal/gateway/budget_hard.go.
use kubeclaw.Prelude.Maps.{Map}
use kubeclaw.Prelude.{
  ℕ, String, Bool, true, false, Option, none, some, List, [], ◌∷◌, ltb, if◌then◌else◌, ◌&&◌, any,
}

-- The kubebuilder enum of spec.budget.policies[].action.
pub data Action : Type 0 where
  block warn degrade : Action

pub data Enforcement : Type 0 where
  soft hard : Enforcement

-- AtPercent is validated to lie in 0..100.
pub record BudgetPolicy : Type 0 where
  pub at_percent : ℕ
  pub action : Action
  pub degrade_to : Option String

pub record Budget : Type 0 where
  pub period : String
  pub per_namespace_usd : String
  pub policies : List BudgetPolicy
  pub cluster_usd : Option String
  pub enforcement : Enforcement
  pub hard_margin : Option ℕ  -- hard.boundaryMarginPercent

pub record ModelPrice : Type 0 where
  pub id : String
  pub cost_per_1m_input : String
  pub cost_per_1m_output : String

pub record FallbackRef : Type 0 where
  pub name : String
  pub model_map : Map String

-- The name and the spec of a ModelProvider, but for what only the dialling of it reads.
pub record Provider : Type 0 where
  pub name : String
  pub kind : String  -- spec.type
  pub models : List ModelPrice
  pub allowed_namespaces : List String
  pub budget : Budget
  pub requests_per_minute : ℕ
  pub fallback : List FallbackRef

abbrev pub is_block : Action → Bool
is_block block = true
is_block warn = false
is_block degrade = false

abbrev pub is_hard : Enforcement → Bool
is_hard hard = true
is_hard soft = false

unfoldable pub hard_active : Budget → Bool
hard_active budget =
    is_hard budget.enforcement && any (λ (p : BudgetPolicy). is_block p.action) budget.policies

-- the loop of minBlockAt over the policies, from its running minimum
unfoldable pub min_block_from : ℕ → List BudgetPolicy → ℕ
min_block_from at [] = at
min_block_from at (p ∷ ps) =
    min_block_from (if is_block p.action && ltb p.at_percent at then p.at_percent else at) ps

-- 101 stands for no block policy
unfoldable pub min_block_at : Budget → ℕ
unfolding min_block_from
min_block_at budget = min_block_from 101 budget.policies

unfoldable pub configured_margin : Budget → ℕ
configured_margin budget = elim budget.hard_margin [ none ↦ 5 | some m ↦ m ]
