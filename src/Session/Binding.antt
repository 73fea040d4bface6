-- ===== src/Session/Binding.antt =====
-- A wrapped session id belongs to one identity.
use kubeclaw.Prelude.{
  Option, none, some, [], ◌∷◌, ◌++◌, bytes_eq, bytes_eq_refl, bytes_eq_sound, append_cancel, All,
  ◌≡◌, ◌≢◌, refl, sym, ap, ◌∙◌, arith, Bool-cases, inl, inr,
}
use kubeclaw.Session.{
  Bytes, Codec, session_mac, wrap_session_id, cut, dot, verify, verify_parts, unwrap_session_id,
}

abbrev pub NoDot : Bytes → Type 0
NoDot = All (λ c. c ≢ dot)

cut-append : (s t : Bytes) → NoDot s → cut (s ++ dot ∷ t) ≡ some (s, t)
unfolding cut
cut-append [] t clean = ground arith
cut-append (c ∷ s) t clean = ground (arith, clean.0, cut-append s t clean.1)

-- A session id that was wrapped for an identity is given back to it, if decoding undoes encoding
-- on the id and on its MAC, and the code of the id has no dot.
pub unwrap-wrap :
    (x : Codec) (key upstream_id identity : Bytes)
    → x.decode (x.encode upstream_id) ≡ some upstream_id
    → (let mac = session_mac x key upstream_id identity in x.decode (x.encode mac) ≡ some mac)
    → NoDot (x.encode upstream_id)
    → unwrap_session_id x key (wrap_session_id x key upstream_id identity) identity
      ≡ some upstream_id
unfolding unwrap_session_id wrap_session_id verify_parts verify
unwrap-wrap x key id identity plain mac clean =
    rw
      (
        unwrap_session_id,
        verify_parts,
        wrap_session_id,
        cut-append (x.encode id) (x.encode (session_mac x key id identity)) clean,
        plain,
        mac,
        bytes_eq_refl (session_mac x key id identity),
      )
      refl

-- what is given out is the decoded id, under its own MAC
verify_sound :
    (x : Codec) (key identity : Bytes) (id mac : Option Bytes) (u : Bytes)
    → verify x key identity id mac ≡ some u
    → (id ≡ some u) × (mac ≡ some (session_mac x key u identity))
unfolding verify
verify_sound x key identity none mac u h = ground arith
verify_sound x key identity (some id) none u h = ground arith
verify_sound x key identity (some id) (some mac) u h =
    elim (Bool-cases (bytes_eq mac (session_mac x key id identity))) [
      | inl same ↦
          let e : id ≡ u = ground arith in
          (
            ap some e,
            ap some (
                bytes_eq_sound mac (session_mac x key id identity) same
                ∙ ap (λ w. session_mac x key w identity) e),
          )
      | inr other ↦ absurd (ground arith)
    ]

some-cancel : (a b : Bytes) → some a ≡ some b → a ≡ b
some-cancel a b h = ground arith

same_mac :
    (x : Codec) (key i j u v : Bytes) (parts : Option (Bytes × Bytes))
    → verify_parts x key i parts ≡ some u
    → verify_parts x key j parts ≡ some v
    → (u ≡ v) × (session_mac x key u i ≡ session_mac x key v j)
unfolding verify_parts
same_mac x key i j u v none hi hj = ground arith
same_mac x key i j u v (some p) hi hj =
    let (id_u, mac_u) = verify_sound x key i (x.decode p.0) (x.decode p.1) u hi in
    let (id_v, mac_v) = verify_sound x key j (x.decode p.0) (x.decode p.1) v hj in
    (
      some-cancel u v (sym id_u ∙ id_v),
      some-cancel (session_mac x key u i) (session_mac x key v j) (sym mac_u ∙ mac_v),
    )

same_identity : (u v i j : Bytes) → u ≡ v → u ++ 0 ∷ i ≡ v ++ 0 ∷ j → i ≡ j
same_identity u v i j e h =
    append_cancel (0 ∷ []) i j (append_cancel u (0 ∷ i) (0 ∷ j) (h ∙ ap (λ w. w ++ 0 ∷ j) (sym e)))

-- What two identities can both unwrap is the same session of the same identity, if the MAC of the
-- key has no collision between the two messages.
pub unwrap_session_id_bound :
    (x : Codec) (key wrapped i j u v : Bytes)
    → unwrap_session_id x key wrapped i ≡ some u
    → unwrap_session_id x key wrapped j ≡ some v
    → (x.hmac key (u ++ 0 ∷ i) ≡ x.hmac key (v ++ 0 ∷ j) → u ++ 0 ∷ i ≡ v ++ 0 ∷ j)
    → (u ≡ v) × (i ≡ j)
unfolding unwrap_session_id session_mac
unwrap_session_id_bound x key wrapped i j u v hi hj no_collision =
    let (same, macs) = same_mac x key i j u v (cut wrapped) hi hj in
    (same, same_identity u v i j same (no_collision macs))
