-- ===== src/Session.antt =====
-- internal/session/store.go: the in-memory session store. Every method is one critical section
-- of the store's lock but `Get`, whose lazy deletion takes the lock anew (Session/Race).
pub mod Laws
pub mod Race
use go_cmms.Base.{Bool, ◌&&◌, not, Option, none, some, List, [], ◌∷◌, ltb, if◌then◌else◌}
use go_cmms.Base.Maps.{Map, lookup, insert, erase, sweep}
use go_cmms.Text.{Text, text_key}
use go_cmms.Models.{Session, Time, is_zero}

abbrev pub Store : Type 0
Store = Map Text Session

pub new_store : Store
new_store = []

-- `!sess.Expiry.IsZero() && sess.Expiry.Before(now)`
abbrev pub is_expired : Time → Session → Bool
is_expired now s = not (is_zero s.expiry) && ltb s.expiry now

-- `Create`, with the id that `uuid.NewString` returned.
unfoldable pub create : Text → Session → Store → Store
create id sess store = insert id sess store

-- The two critical sections of `Get`: the read, and the deletion of an expired session.
unfoldable pub get_read : Text → Store → Option Session
get_read id store = lookup id store

unfoldable pub delete : Text → Store → Store
delete id store = erase id store

-- `Get` with nothing in between: what it returns, and the store that it leaves.
unfoldable pub get : Text → Time → Store → Option Session × Store
get id now store = elim (get_read id store) [
  | none ↦ (none, store)
  | some sess ↦ if is_expired now sess then (none, delete id store) else (some sess, store)
]

-- One tick of the sweeper.
unfoldable pub sweep_expired : Time → Store → Store
sweep_expired now store = sweep (is_expired now) store

pub record SessionEntry : Type 0 where
  pub id : Text
  pub session : Session

-- `List`, in the order of the association list (Go's map order is unspecified).
unfoldable pub list : Store → List SessionEntry
list [] = []
list ((k, v) ∷ store) = record { id = k; session = v } ∷ list store
