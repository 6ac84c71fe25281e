-- ===== src/Session/Laws.antt =====
-- The session store against its abstract view: at each instant, a partial function from ids to
-- sessions that have not expired.
use go_cmms.Base.{true, ◌≡◌, ◌≤◌, Option, none, some, inl, inr, arith, if◌then◌else◌, Option-cases}
use go_cmms.Base.Maps.{
  lookup, unless, IsUnique, lookup-insert, lookup-erase, lookup-sweep, insert-IsUnique,
  erase-IsUnique, sweep-IsUnique,
}
use go_cmms.Text.{Text, text_eq, text_eq_iff, text_key}
use go_cmms.Models.{Session, Time}
use go_cmms.Session.{Store, is_expired, create, get_read, get, delete, sweep_expired}

-- What a client may see at an instant.
abbrev pub live : Time → Store → Text → Option Session
live now store id = unless (is_expired now) (lookup id store)

-- What has expired stays expired.
pub is_expired_mono :
    (t now : Time) (v : Session) → t ≤ now → is_expired t v ≡ true → is_expired now v ≡ true
is_expired_mono t now v h e = ground arith

-- `Get` returns exactly the live session of the id, and neither it nor anything it removes changes
-- what any id shows from then on.
pub get-live :
    (id j : Text) (now later : Time) (store : Store)
    → now ≤ later
    → ((get id now store).0 ≡ live now store id)
      × (live later (get id now store).1 j ≡ live later store j)
unfolding get get_read delete
get-live id j now later store h = elim (Option-cases (lookup id store)) [
  | inl missing ↦ ground arith
  | inr (v, found) ↦
      ground
        (arith, found, lookup-erase id j store, text_eq_iff id j, is_expired_mono now later v h)
]

-- A tick of the sweeper at `now` changes what no id shows from then on.
pub sweep_expired-live :
    (j : Text) (now later : Time) (store : Store)
    → IsUnique store
    → now ≤ later
    → live later (sweep_expired now store) j ≡ live later store j
unfolding sweep_expired
sweep_expired-live j now later store u h =
    rw (lookup-sweep (is_expired now) j store u) (ground arith)

-- A created session is what its id shows until it expires; a deleted id shows nothing; no other
-- id is touched by either.
create-delete-live :
    (id j : Text) (s : Session) (now : Time) (store : Store)
    → (live now (create id s store) j
        ≡ (if text_eq id j then unless (is_expired now) (some s) else live now store j))
      × (live now (delete id store) j ≡ (if text_eq id j then none else live now store j))
unfolding create delete
create-delete-live id j s now store =
    ground (arith, lookup-insert id j s store, lookup-erase id j store)

-- Every operation keeps the ids distinct.
pub create-IsUnique :
    (id : Text) (s : Session) (store : Store) → IsUnique store → IsUnique (create id s store)
unfolding create
create-IsUnique id s store = insert-IsUnique id s store

pub delete-IsUnique : (id : Text) (store : Store) → IsUnique store → IsUnique (delete id store)
unfolding delete
delete-IsUnique id store = erase-IsUnique id store

pub sweep_expired-IsUnique :
    (now : Time) (store : Store) → IsUnique store → IsUnique (sweep_expired now store)
unfolding sweep_expired
sweep_expired-IsUnique now store = sweep-IsUnique (is_expired now) store
