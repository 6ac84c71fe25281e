-- ===== src/Db/Laws.antt =====
-- What the queries on memberships, invites and credentials give back after one another.
use go_cmms.Base.{
  ℕ, ◌≤◌, ◌<◌, true, ◌≡◌, ◌⊎◌, inl, inr, refl, none, some, List, [], ◌∷◌, arith, if◌then◌else◌,
  is_some, ◌==◌, Option-cases, Bool-cases, not, ◌&&◌,
}
use mathlib.Core.Option
use go_cmms.Base.Lists.{All, find, any, update}
use go_cmms.Text.{Text, text_eq, text_eq_iff, to_lower}
use go_cmms.Models.{Time, role_owner, role_admin, role_member, role_viewer}
use go_cmms.Db.{
  Db, Organisation, MembershipRow, InviteRow, RoleEnum, position, role_text, role_of_text,
}
use go_cmms.Db.Orgs.{
  is_member, with_org, first_row, comes_first, first_org, pick_user_org, ensure_membership,
  get_role, has_token, select_invite, mark_invite_used,
}
use go_cmms.Db.Credentials.{create_local_credential}

-- The row is one of the rows.
abbrev pub IsAmong : RoleEnum × Organisation → List (RoleEnum × Organisation) → Type 0
IsAmong x [] = ⊥
IsAmong x (y ∷ ys) = (x ≡ y) ⊎ IsAmong x ys

-- No row has a later role, nor the same role with an organisation that was created earlier.
abbrev pub Precedes : RoleEnum × Organisation → RoleEnum × Organisation → Type 0
Precedes (r, o) (s, p) =
    (position s < position r) ⊎ ((position s ≡ position r) × (o.created_at ≤ p.created_at))

first_row-Precedes :
    (best : RoleEnum × Organisation) (rows : List (RoleEnum × Organisation))
    → Precedes (first_row best rows) best
      × All (Precedes (first_row best rows)) rows
      × ((first_row best rows ≡ best) ⊎ IsAmong (first_row best rows) rows)
first_row-Precedes (r, o) [] = ground arith
first_row-Precedes (r, o) ((s, p) ∷ rows) = elim (Bool-cases (comes_first (s, p) (r, o))) [
  | inl e ↦ ground (arith, first_row-Precedes (s, p) rows)
  | inr e ↦ ground (arith, first_row-Precedes (r, o) rows)
]

some_eq : (q o : Organisation) → some q ≡ some o → q ≡ o
some_eq q o e = cc

-- The organisation that a user without an active one is put into is that of a membership whose role
-- comes last in the enum's order Owner, Admin, Member, Viewer: of a user's organisations, one in
-- which the user has the fewest rights; among those with that role, one that was created first.
pub pick_user_org-Precedes :
    (user_id : ℕ) (db : Db) (o : Organisation)
    → pick_user_org user_id db ≡ some o
    → (row : RoleEnum × Organisation) × (row.1 ≡ o)
      × IsAmong row (with_org user_id db.memberships db)
      × All (Precedes row) (with_org user_id db.memberships db)
unfolding pick_user_org
pick_user_org-Precedes user_id db o h = first_org_lem (with_org user_id db.memberships db) h
  where
    first_org_lem :
        (rows : List (RoleEnum × Organisation))
        → first_org rows ≡ some o
        → (row : RoleEnum × Organisation) × (row.1 ≡ o) × IsAmong row rows × All (Precedes row) rows
    first_org_lem [] e = ground arith
    first_org_lem (row ∷ rows) e =
        let (least, all_least, among) = first_row-Precedes row rows in
        (first_row row rows, some_eq (first_row row rows).1 o e, among, (least, all_least))

role_text-of_text : (t : Text) (r : RoleEnum) → role_of_text t ≡ some r → role_text r ≡ t
unfolding role_of_text
role_text-of_text t r h = ground (
  arith,
  h,
  text_eq_iff t role_owner,
  text_eq_iff t role_admin,
  text_eq_iff t role_member,
  text_eq_iff t role_viewer,
)

-- The memberships of one pair after the role of one pair is replaced.
find-update_role :
    (org_id user_id org user : ℕ) (r : RoleEnum) (ms : List MembershipRow)
    → find (is_member org user) (update (is_member org_id user_id) (λ m. record m { role = r }) ms)
      ≡ (elim (find (is_member org user) ms) [
        | none ↦ none
        | some m ↦ some (if is_member org_id user_id m then record m { role = r } else m)
      ])
find-update_role org_id user_id org user r [] = refl
find-update_role org_id user_id org user r (m ∷ ms) =
    ground (arith, find-update_role org_id user_id org user r ms)

find-any :
    (org user : ℕ) (ms : List MembershipRow)
    → any (is_member org user) ms ≡ is_some (find (is_member org user) ms)
find-any org user [] = refl
find-any org user (m ∷ ms) = ground (arith, find-any org user ms)

find-IsMember :
    (org user : ℕ) (ms : List MembershipRow) (m : MembershipRow)
    → find (is_member org user) ms ≡ some m
    → (m.org_id ≡ org) × (m.user_id ≡ user)
find-IsMember org user [] m h = ground arith
find-IsMember org user (n ∷ ms) m h = elim (Bool-cases (is_member org user n)) [
  | inl e ↦ ground arith
  | inr e ↦ find-IsMember org user ms m (ground arith)
]

-- A membership statement that succeeds has written the given role, whatever the role was before:
-- the pair's role reads back as the given one, and the role of every other pair as it was.
pub ensure_membership-get_role :
    (org_id user_id : ℕ) (role t : Text) (db db' : Db)
    → ensure_membership org_id user_id role db ≡ some (t, db')
    → (org user : ℕ)
    → get_role org user db'
      ≡ (if org == org_id && user == user_id then some role else get_role org user db)
unfolding ensure_membership get_role
ensure_membership-get_role org_id user_id role t db db' h org user =
    elim (Option-cases (role_of_text role)) [
      | inl e ↦ ground arith
      | inr (r, e) ↦ elim (Bool-cases (any (is_member org_id user_id) db.memberships)) [
        | inl f ↦ elim (Option-cases (find (is_member org user) db.memberships)) [
          | inl g ↦ ground (
            arith,
            h,
            e,
            f,
            g,
            role_text-of_text role r e,
            find-update_role org_id user_id org user r db.memberships,
            find-any org_id user_id db.memberships,
          )
          | inr (m, g) ↦ ground (
            arith,
            h,
            e,
            f,
            g,
            role_text-of_text role r e,
            find-update_role org_id user_id org user r db.memberships,
            find-IsMember org user db.memberships m g,
          )
        ]
        | inr f ↦ ground (arith, h, e, f, role_text-of_text role r e)
      ]
    ]

-- The statement that marks an invite as used keeps every other invite, and all of the invite but the
-- mark: an invite without one gets the time, one with a mark keeps it.
pub mark_invite_used-select :
    (hash other : Text) (now : Time) (db : Db)
    → select_invite other (mark_invite_used hash now db) ≡ (elim (select_invite other db) [
      | none ↦ none
      | some i ↦ some (
          if text_eq i.token_hash hash && not (is_some i.used_at)
          then record i { used_at = some now }
          else i)
    ])
unfolding select_invite mark_invite_used
mark_invite_used-select hash other now db = go db.invites
  where
    go :
        (is : List InviteRow)
        → find (has_token other) (
            update
              (λ i. has_token hash i && not (is_some i.used_at))
              (λ i. record i { used_at = some now })
              is)
          ≡ (elim (find (has_token other) is) [
            | none ↦ none
            | some i ↦ some (
                if text_eq i.token_hash hash && not (is_some i.used_at)
                then record i { used_at = some now }
                else i)
          ])
    go [] = refl
    go (i ∷ is) = ground (arith, go is)

abbrev pub marked : Time → InviteRow → InviteRow
marked now i = if is_some i.used_at then i else record i { used_at = some now }

find-HasToken :
    (hash : Text) (is : List InviteRow) (i : InviteRow)
    → find (has_token hash) is ≡ some i
    → text_eq i.token_hash hash ≡ true
find-HasToken hash [] i h = ground arith
find-HasToken hash (j ∷ is) i h = elim (Bool-cases (has_token hash j)) [
  | inl e ↦ ground arith
  | inr e ↦ find-HasToken hash is i (ground arith)
]

-- The marked invite reads back with its mark.
pub mark_invite_used-same :
    (hash : Text) (now : Time) (db : Db)
    → select_invite hash (mark_invite_used hash now db)
      ≡ Option.map (marked now) (select_invite hash db)
unfolding select_invite
mark_invite_used-same hash now db = elim (Option-cases (find (has_token hash) db.invites)) [
  | inl e ↦ ground (arith, mark_invite_used-select hash hash now db, e)
  | inr (i, e) ↦
      ground (arith, mark_invite_used-select hash hash now db, e, find-HasToken hash db.invites i e)
]

-- A membership statement changes no table but the memberships.
pub ensure_membership-keeps :
    (org_id user_id : ℕ) (role t : Text) (db db' : Db)
    → ensure_membership org_id user_id role db ≡ some (t, db')
    → (db'.users ≡ db.users)
      × (db'.invites ≡ db.invites)
      × (db'.credentials ≡ db.credentials)
      × (db'.organisations ≡ db.organisations)
unfolding ensure_membership
ensure_membership-keeps org_id user_id role t db db' h = ground (arith, h)

-- A username that has a credential gets no second one.
create_local_credential-once :
    (now later : Time) (user_id other : ℕ) (username hash hash' : Text) (db db' : Db)
    → create_local_credential now user_id username hash db ≡ some db'
    → create_local_credential later other username hash' db' ≡ none
unfolding create_local_credential
create_local_credential-once now later user_id other username hash hash' db db' h =
    ground (arith, h, text_eq_iff (to_lower username) (to_lower username))
