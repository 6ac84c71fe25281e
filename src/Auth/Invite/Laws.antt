-- ===== src/Auth/Invite/Laws.antt =====
-- What an accepted invite gives, and that it is accepted once.
use go_cmms.Base.{
  ℕ, suc, true, false, ◌≡◌, ◌≢◌, inl, inr, refl, sym, Option, none, some, arith, Option-cases,
  Bool-cases,
}
use go_cmms.Base.{ap, ◌∙◌}
use mathlib.Core.Path.{subst}
use mathlib.Core.Option
use go_cmms.Text.{Text, hex, is_empty, to_lower, trim_space}
use go_cmms.Models.{OrgInvite, Time}
use go_cmms.Http.{World, Response, Result, ok, stop, statement, bind_ends, Action, ◌>>=◌}
use go_cmms.Db.{InviteRow}
use go_cmms.Db.Orgs as Sql
use go_cmms.Db.Laws.{marked}
use go_cmms.Repo.Users.{get_user_by_email}
use go_cmms.Repo.Orgs.{get_invite_by_token_hash, invite_of_row}
use go_cmms.Auth.{External}
use go_cmms.Auth.Invite.{accept_invite, admit, user_or_new, is_closed}
use go_cmms.Auth.Invite.Admission.{
  admit-Admitted, Named, Sought, get_user-Sought, found_or_new-Named, Admitted-Joined, Joined,
}

is_closed-marked :
    (now later : Time) (row : InviteRow)
    → row.used_at ≡ none
    → now ≢ 0
    → is_closed later (invite_of_row (marked now row)) ≡ true
unfolding invite_of_row
is_closed-marked now later row unused late = ground arith

-- The stored invite that an acceptance has found.
abbrev pub OfRow : Text → World → Result Response × World → Option InviteRow → Type 0
OfRow hash w e none = ⊥
OfRow hash w e (some row) =
    (is_closed w.now (invite_of_row row) ≡ false) × Joined (invite_of_row row) hash w e

abbrev pub IsRefused : Result Response → Type 0
IsRefused (ok r) = ⊥
IsRefused (stop r) = Unit

module _ (x : External) where
  -- What an acceptance of a token means for the invite that is stored under the token's hash.
  abbrev pub Accepted : Option Text → World → Result Response × World → Type 0
  Accepted none w (ok r, w') = ⊥
  Accepted none w (stop r, w') = w' ≡ w
  Accepted (some token) w (ok r, w') =
      OfRow (hex (x.sha256 token)) w (ok r, w') (Sql.select_invite (hex (x.sha256 token)) w.db)
  Accepted (some token) w (stop r, w') = w'.sessions ≡ w.sessions

  join : OrgInvite → Text → Action Response
  join inv hash = get_user_by_email (to_lower inv.email) >>= λ found.
      user_or_new (to_lower inv.email) found >>= λ user. admit inv hash user.id

  join-Joined : (inv : OrgInvite) (hash : Text) (w : World) → Joined inv hash w (join inv hash w)
  unfolding join
  join-Joined inv hash w =
      bind_ends (Sought (to_lower inv.email) w) (Joined inv hash w)
        (get_user_by_email (to_lower inv.email))
        (λ found. user_or_new (to_lower inv.email) found >>= λ user. admit inv hash user.id) w
        (get_user-Sought (to_lower inv.email) w)
        (λ found w1 h.
          bind_ends (Named (to_lower inv.email) w) (Joined inv hash w)
            (user_or_new (to_lower inv.email) found) (λ user. admit inv hash user.id) w1
            (found_or_new-Named (to_lower inv.email) w found w1 h)
            (λ u w2 n.
              Admitted-Joined inv hash u w w2 (admit inv hash u.id w2) n
                (admit-Admitted inv hash u.id w2))
            (λ r w2 k. k))
        (λ r w1 h. h)

  accept_invite-join :
      (token : Text) (w : World) (row : InviteRow)
      → is_empty (trim_space token) ≡ false
      → w.faults w.queries ≡ false
      → Sql.select_invite (hex (x.sha256 token)) w.db ≡ some row
      → is_closed w.now (invite_of_row row) ≡ false
      → accept_invite x (some token) w
        ≡ join (invite_of_row row) (hex (x.sha256 token)) (record w { queries = suc w.queries })
  unfolding accept_invite get_invite_by_token_hash statement join
  accept_invite-join token w row e f g h = ground arith

  Joined-Accepted :
      (token : Text) (w : World) (row : InviteRow) (e : Result Response × World)
      → Sql.select_invite (hex (x.sha256 token)) w.db ≡ some row
      → is_closed w.now (invite_of_row row) ≡ false
      → Joined (invite_of_row row) (hex (x.sha256 token)) w e
      → Accepted (some token) w e
  Joined-Accepted token w row (ok r, w') g h j =
      subst (OfRow (hex (x.sha256 token)) w (ok r, w')) (sym g) (h, j)
  Joined-Accepted token w row (stop r, w') g h j = j

  -- An acceptance that answers with a success found an invite under the token's hash that was not
  -- used and had not expired; the user of the invite's email, found or made, now has the invite's
  -- role in its organisation, whatever the role was before, and one new session there; and the
  -- invite is marked as used. Any other answer leaves the sessions as they were.
  pub accept_invite-Accepted :
      (body : Option Text) (w : World) → Accepted body w (accept_invite x body w)
  unfolding accept_invite get_invite_by_token_hash statement
  accept_invite-Accepted none w = refl
  accept_invite-Accepted (some token) w = elim (Bool-cases (is_empty (trim_space token))) [
    | inl e ↦ ground arith
    | inr e ↦ elim (Bool-cases (w.faults w.queries)) [
      | inl f ↦ ground arith
      | inr f ↦ elim (Option-cases (Sql.select_invite (hex (x.sha256 token)) w.db)) [
        | inl g ↦ ground arith
        | inr (row, g) ↦ elim (Bool-cases (is_closed w.now (invite_of_row row))) [
          | inl h ↦ ground arith
          | inr h ↦ rw (accept_invite-join token w row e f g h) (
              Joined-Accepted token w row
                (join (invite_of_row row) (hex (x.sha256 token))
                  (record w { queries = suc w.queries }))
                g h
                (join-Joined (invite_of_row row) (hex (x.sha256 token))
                  (record w { queries = suc w.queries })))
        ]
      ]
    ]
  ]

  -- A marked invite is refused.
  marked-IsRefused :
      (token : Text) (w : World) (row : InviteRow)
      → Sql.select_invite (hex (x.sha256 token)) w.db ≡ some row
      → is_closed w.now (invite_of_row row) ≡ true
      → IsRefused (accept_invite x (some token) w).0
  unfolding accept_invite get_invite_by_token_hash statement
  marked-IsRefused token w row g h = ground arith

  -- Once an acceptance has answered with a success, a next one of the same
  -- token is refused, whatever the clock then says, provided that the first was not at the zero time
  -- and that the stored invite had no mark.
  pub accept_invite-once :
      (token : Text) (w w' : World) (r : Response) (row : InviteRow) (later : ℕ)
      → accept_invite x (some token) w ≡ (ok r, w')
      → Sql.select_invite (hex (x.sha256 token)) w.db ≡ some row
      → row.used_at ≡ none
      → w.now ≢ 0
      → IsRefused (accept_invite x (some token) (record w' { now = later })).0
  accept_invite-once token w w' r row later e g unused late =
      let done = subst (Accepted (some token) w) e (accept_invite-Accepted (some token) w) in
      let joined = subst (OfRow (hex (x.sha256 token)) w (ok r, w')) g done in
      marked-IsRefused token (record w' { now = later }) (marked w.now row)
        (joined.1.5 ∙ ap (Option.map (marked w.now)) g)
        (is_closed-marked w.now later row unused late)
