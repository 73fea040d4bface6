-- ===== src/Activity/Samples.antt =====
-- Two replicas with one agent: the theorems at inputs that meet their hypotheses.
use kubeclaw.Prelude.{none, some, [], ◌∷◌}
use kubeclaw.Prelude.Maps.{Map}
use kubeclaw.Activity.{AgentActivity, merged_activity, both}
use kubeclaw.Activity.Newest.{IsNewest, merged_activity-IsNewest}

abbrev here : Map AgentActivity
here = ("a", record { gateway_traffic = some 10; heartbeat = none }) ∷ []

abbrev there : Map AgentActivity
there = ("a", record { gateway_traffic = some 7; heartbeat = some 12 }) ∷ []

merged_activity-IsNewest_example :
    IsNewest "a" both (here ∷ there ∷ []) (merged_activity (here ∷ there ∷ []) "a" both)
merged_activity-IsNewest_example = merged_activity-IsNewest (here ∷ there ∷ []) "a" both
