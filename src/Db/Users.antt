-- ===== src/Db/Users.antt =====
-- internal/db/gen/users.sql.go and identites.sql.go.
use go_cmms.Base.{ℕ, Bool, ◌&&◌, Option, none, some, List, ◌∷◌, ◌==◌, if◌then◌else◌}
use go_cmms.Base.Lists.{any, find, keep, update}
use go_cmms.Base.Sort.{Comparison, sort_by, then_by, on}
use go_cmms.Text.{Text, text_eq}
use go_cmms.Models.{Time}
use go_cmms.Db.{Db, UserRow, IdentityRow}

-- `WHERE email = $1`
unfoldable pub get_user_by_email : Text → Db → Option UserRow
get_user_by_email email db = find (λ u. text_eq u.email email) db.users

unfoldable pub get_user_by_id : ℕ → Db → Option UserRow
get_user_by_id id db = find (λ u. u.id == id) db.users

-- `COALESCE(a, b)`
abbrev pub coalesce : Option Text → Option Text → Option Text
coalesce none b = b
coalesce (some a) b = some a

-- `INSERT … ON CONFLICT (email) DO UPDATE SET name = COALESCE(users.name, EXCLUDED.name)`, with
-- the id that the column's default gives to a new row.
unfoldable pub upsert_user_by_verified_email :
    ℕ → Time → Text → Option Text → Db → Option (UserRow × Db)
unfolding get_user_by_email get_user_by_id
upsert_user_by_verified_email id now email name db = elim (get_user_by_email email db) [
  | some old ↦
      let named = record old { name = coalesce old.name name } in
      some (
        named,
        record db {
          users =
              update (λ u. text_eq u.email email) (λ u. record u { name = coalesce u.name name })
                db.users;
        },
      )
  | none ↦ elim (get_user_by_id id db) [
    | some clash ↦ none
    | none ↦
        let row : UserRow = record {
          id = id;
          email = email;
          name = name;
          avatar_url = none;
          phone = none;
          country = none;
          created_at = now;
        } in
        some (row, record db { users = row ∷ db.users })
  ]
]

-- `UPDATE users SET name = COALESCE($1, name), … WHERE id = $5`
unfoldable pub update_user_profile :
    ℕ → Option Text → Option Text → Option Text → Option Text → Db → Db
update_user_profile id name avatar phone country db = record db {
  users =
      update (λ u. u.id == id)
        (λ u. record u {
          name = coalesce name u.name;
          avatar_url = coalesce avatar u.avatar_url;
          phone = coalesce phone u.phone;
          country = coalesce country u.country;
        })
        db.users;
}

abbrev pub is_identity : Text → Text → IdentityRow → Bool
is_identity provider subject i = text_eq i.provider provider && text_eq i.subject subject

-- `FROM identities i JOIN users u ON u.id = i.user_id WHERE i.provider = $1 AND i.subject = $2`
unfoldable pub get_user_by_identity : Text → Text → Db → Option UserRow
unfolding get_user_by_id
get_user_by_identity provider subject db =
    elim (find (is_identity provider subject) db.identities) [
      | none ↦ none
      | some i ↦ get_user_by_id i.user_id db
    ]

-- `INSERT INTO identities … ON CONFLICT (provider, subject) DO NOTHING`
unfoldable pub link_identity : ℕ → Text → Text → Db → Option Db
unfolding get_user_by_id
link_identity user_id provider subject db =
    if any (is_identity provider subject) db.identities
    then some db
    else elim (get_user_by_id user_id db) [
      | none ↦ none
      | some u ↦ some (record db {
        identities =
            record { user_id = user_id; provider = provider; subject = subject } ∷ db.identities;
      })
    ]

-- `FROM identities WHERE user_id = $1 ORDER BY provider, subject`
unfoldable pub list_identities_for_user : Comparison Text → ℕ → Db → List IdentityRow
list_identities_for_user collate user_id db =
    sort_by (then_by (on (λ i. i.provider) collate) (on (λ i. i.subject) collate))
      (keep (λ i. i.user_id == user_id) db.identities)
