-- ===== src/Security.antt =====
-- internal/security/denylist.go: the in-memory deny lists of users and of identities, each a Go
-- `map[K]struct{}`, here a map to the unit type.
pub mod Laws
use mathlib.Core.List.{[], ◌∷◌, ◌++◌}
use go_cmms.Base.{ℕ, Bool, is_some}
use go_cmms.Base.Maps.{Map, lookup, insert, erase}
use go_cmms.Text.{Text, codes, text_key, uuid_key}

pub record Denied : Type 0 where
  pub users : Map ℕ (Unit {0})
  pub idents : Map Text (Unit {0})

-- `provider + "|" + subject`
unfoldable pub key_ident : Text → Text → Text
key_ident provider subject = provider ++ b'|' ∷ subject

unfoldable pub deny_user : ℕ → Denied → Denied
deny_user id d = record d { users = insert id tt d.users }

unfoldable pub allow_user : ℕ → Denied → Denied
allow_user id d = record d { users = erase id d.users }

unfoldable pub is_user_denied : ℕ → Denied → Bool
is_user_denied id d = is_some (lookup id d.users)

unfoldable pub deny_identity : Text → Text → Denied → Denied
deny_identity provider subject d = record d {
  idents = insert (key_ident provider subject) tt d.idents;
}

unfoldable pub allow_identity : Text → Text → Denied → Denied
allow_identity provider subject d = record d {
  idents = erase (key_ident provider subject) d.idents;
}

unfoldable pub is_identity_denied : Text → Text → Denied → Bool
is_identity_denied provider subject d = is_some (lookup (key_ident provider subject) d.idents)
