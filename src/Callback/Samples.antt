-- ===== src/Callback/Samples.antt =====
-- A receiver that answers at the second try, an allowlist of one name, and a finished record: the
-- theorems at inputs that meet their hypotheses.
use kubeclaw.Prelude.{
  ℕ, suc, String, true, false, none, some, List, [], ◌∷◌, ◌==◌, length, ◌≡◌, ◌⊎◌, refl, arith,
  if◌then◌else◌,
}
use kubeclaw.Callback.Address.{
  Ip, v4, to4, is_loopback, is_link_local_unicast, is_link_local_multicast, is_unspecified,
}
use kubeclaw.Callback.Policy.{
  Bytes, Policy, Parsers, new, new_from, add_entry, allowed, matches, floor,
}
use kubeclaw.Callback.Permission.{matches-new}
use kubeclaw.Callback.Delivery.{World, Webhook, send_callback, run_async_pipeline}
use kubeclaw.Callback.Delivery.Attempts.{
  Follows, Accepted, Stored, send_callback-Follows, run_async_pipeline_kept,
}
use kubeclaw.Callback.Poll.{
  Poll, Channel, AsyncRecord, found, not_found, handle_poll, handle_poll_conceals,
}

abbrev no_numbers : Parsers
no_numbers = record { parse_cidr = λ s. none }

-- ".b" and "a.b"
abbrev dot_b : List Bytes
dot_b = (46 ∷ 98 ∷ []) ∷ []

abbrev a_b : Bytes
a_b = 97 ∷ 46 ∷ 98 ∷ []

-- 10.0.0.1
abbrev inside : Ip
inside = v4 167772161

dot_b-allowed : allowed (new no_numbers dot_b) a_b inside ≡ true
unfolding allowed new new_from add_entry matches floor is_loopback is_link_local_unicast
    is_link_local_multicast is_unspecified to4
dot_b-allowed = refl

matches-new_example : matches (new no_numbers dot_b) a_b inside ≡ true
matches-new_example = matches-new no_numbers a_b inside dot_b

abbrev slow_receiver : World
slow_receiver = record {
  cancelled = λ n. false;
  resolve = λ n. some (inside ∷ []);
  receive = λ n ip. if n == 1 then some 200 else none;
  patch = λ n. n == 1;
}

abbrev hook : Webhook
hook = record { https = true; host = a_b; secret_ok = true }

abbrev policy : Policy
policy = new no_numbers dot_b

abbrev schedule : List ℕ
schedule = 1 ∷ 5 ∷ []

send_callback-Follows_example :
    Follows slow_receiver policy hook.host
      (suc (length schedule))
      []
      (send_callback slow_receiver policy schedule hook []).1
      (send_callback slow_receiver policy schedule hook []).0
send_callback-Follows_example = send_callback-Follows slow_receiver policy schedule hook

run_async_pipeline_kept_example :
    Accepted slow_receiver (run_async_pipeline slow_receiver policy schedule (some hook))
    ⊎ Stored slow_receiver (run_async_pipeline slow_receiver policy schedule (some hook))
run_async_pipeline_kept_example =
    run_async_pipeline_kept slow_receiver policy schedule (some hook) 1 (λ m. refl) (omega arith)
      refl

abbrev channel : Channel
channel = record { namespace = "team"; name = "chat" }

abbrev finished : String → AsyncRecord
finished name = record {
  created_at = 10;
  channel_namespace = "team";
  channel_name = name;
  payload = some "hello";
}

abbrev poll : Poll
poll = record {
  is_get = true;
  valid_id = true;
  channel_path = "/channels/team/chat";
  channel = some channel;
  authentic = true;
  now = 20;
}

handle_poll_conceals_example :
    handle_poll poll (found (finished "other")) ≡ handle_poll poll not_found
handle_poll_conceals_example = handle_poll_conceals poll (finished "other") channel refl refl
