-- ===== src/Tenancy.antt =====
-- Who may use what: namespaceGlobAllowed of internal/gateway/routing.go.
pub mod Routing
pub mod Qualified
mod Samples
use kubeclaw.Prelude.{String, Bool, true, false, Option, none, some, List, [], ◌∷◌}

-- path.Match(pattern, name), `none` for a malformed pattern
abbrev pub Glob : Type 0
Glob = String → String → Option Bool

abbrev pub globs : Option Bool → Bool
globs none = false
globs (some b) = b

-- An empty list allows none.
unfoldable pub namespace_allowed : Glob → String → List String → Bool
namespace_allowed glob ns [] = false
namespace_allowed glob ns (pattern ∷ allowed) =
    let rest = namespace_allowed glob ns allowed in
    elim (globs (glob pattern ns)) [ true ↦ true | false ↦ rest ]
