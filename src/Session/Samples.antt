-- ===== src/Session/Samples.antt =====
-- A code that is the bytes themselves and a MAC that is its message: the theorems at inputs that
-- meet their hypotheses.
use kubeclaw.Prelude.{some, [], ◌∷◌, ◌≡◌, refl, arith}
use kubeclaw.Session.{
  Bytes, Codec, session_mac, wrap_session_id, unwrap_session_id, verify, verify_parts, cut,
}
use kubeclaw.Session.Binding.{NoDot, unwrap-wrap, unwrap_session_id_bound}

abbrev plain : Codec
plain = record { hmac = λ key message. message; encode = λ s. s; decode = λ s. some s }

abbrev id_a : Bytes
id_a = 97 ∷ []

abbrev team : Bytes
team = 116 ∷ []

id_a-NoDot : NoDot id_a
id_a-NoDot = ((λ e. omega (arith, e)), tt)

unwrap-wrap_example :
    unwrap_session_id plain [] (wrap_session_id plain [] id_a team) team ≡ some id_a
unfolding session_mac
unwrap-wrap_example = unwrap-wrap plain [] id_a team refl refl id_a-NoDot

abbrev wrapped : Bytes
wrapped = 97 ∷ 46 ∷ 97 ∷ 0 ∷ 116 ∷ []

unwrapped : unwrap_session_id plain [] wrapped team ≡ some id_a
unfolding unwrap_session_id verify_parts verify cut session_mac
unwrapped = refl

unwrap_session_id_bound_example : (id_a ≡ id_a) × (team ≡ team)
unwrap_session_id_bound_example =
    unwrap_session_id_bound plain [] wrapped team team id_a id_a unwrapped unwrapped (λ h. h)
