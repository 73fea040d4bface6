-- ===== src/Session.antt =====
-- The ownership of MCP sessions: internal/gateway/mcpsession.go, over bytes. HMAC-SHA256 and
-- base64url are parameters.
pub mod Binding
mod Samples
use kubeclaw.Prelude.{
  ℕ, Bool, true, false, not, Option, none, some, List, [], ◌∷◌, ◌++◌, ◌==◌, bytes_eq, if◌then◌else◌,
}
use kubeclaw.Prelude.Maps.{Map}

abbrev pub Bytes : Type 0
Bytes = List ℕ

pub record Codec : Type 0 where
  pub hmac : Bytes → Bytes → Bytes  -- of a key and a message
  pub encode : Bytes → Bytes
  pub decode : Bytes → Option Bytes

pub record SessionCaller : Type 0 where
  pub namespace : Bytes
  pub workload : Option (Bytes × Bytes)  -- its kind and its name

abbrev slash : ℕ
slash = 47

-- callerIdentity
unfoldable pub caller_identity : SessionCaller → Bytes
caller_identity c = elim c.workload [
  | none ↦ 110 ∷ 115 ∷ slash ∷ c.namespace
  | some w ↦ c.namespace ++ slash ∷ w.0 ++ slash ∷ w.1
]

unfoldable pub session_mac : Codec → Bytes → Bytes → Bytes → Bytes
session_mac x key upstream_id identity = x.hmac key (upstream_id ++ 0 ∷ identity)

abbrev pub dot : ℕ
dot = 46

unfoldable pub wrap_session_id : Codec → Bytes → Bytes → Bytes → Bytes
unfolding session_mac
wrap_session_id x key upstream_id identity =
    x.encode upstream_id ++ dot ∷ x.encode (session_mac x key upstream_id identity)

-- strings.Cut at the first dot
unfoldable pub cut : Bytes → Option (Bytes × Bytes)
cut [] = none
cut (c ∷ s) =
    let rest = cut s in
    if c == dot then some ([], s) else elim rest [ none ↦ none | some p ↦ some (c ∷ p.0, p.1) ]

-- the checks on the decoded parts
unfoldable pub verify : Codec → Bytes → Bytes → Option Bytes → Option Bytes → Option Bytes
unfolding session_mac
verify x key identity none mac = none
verify x key identity (some id) none = none
verify x key identity (some id) (some mac) =
    if not (bytes_eq mac (session_mac x key id identity)) then none else some id

unfoldable pub verify_parts : Codec → Bytes → Bytes → Option (Bytes × Bytes) → Option Bytes
unfolding verify
verify_parts x key identity none = none
verify_parts x key identity (some p) = verify x key identity (x.decode p.0) (x.decode p.1)

unfoldable pub unwrap_session_id : Codec → Bytes → Bytes → Bytes → Option Bytes
unfolding verify_parts cut
unwrap_session_id x key wrapped identity = verify_parts x key identity (cut wrapped)
