-- ===== src/ChannelHealth/Samples.antt =====
-- A channel that failed and then delivered: the theorems at inputs that meet their hypotheses.
use kubeclaw.Prelude.{true, false, none, [], ◌∷◌}
use kubeclaw.ChannelHealth.{Observation, last_from}
use kubeclaw.ChannelHealth.Report.{Latest, last_from-Latest}

abbrev failed : Observation
failed = record { success = false; reason = "DispatchFailed"; last_error = "refused"; time = 10 }

abbrev sent : Observation
sent = record { success = true; reason = "WebhookReady"; last_error = ""; time = 20 }

last_from-Latest_example :
    Latest false 300 30 (failed ∷ sent ∷ []) (last_from false 300 30 none (failed ∷ sent ∷ []))
last_from-Latest_example = last_from-Latest false 300 30 (failed ∷ sent ∷ [])
