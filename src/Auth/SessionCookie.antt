-- ===== src/Auth/SessionCookie.antt =====
-- `ReadSession` and `SetSessionCookie` of internal/auth/session.go against the live view of the
-- session store.
use native.Mathlib.Nat.{le_refl}
use go_cmms.Base.{
  ◌≡◌, refl, sym, ap, Option, none, some, arith, Option-cases, if◌then◌else◌, inl, inr,
}
use go_cmms.Base.Maps.{lookup, unless, lookup-insert}
use go_cmms.Text.{Text, text_eq, text_key}
use go_cmms.Models.{Session, Time}
use go_cmms.Session.{get, is_expired, create}
use go_cmms.Session.Laws.{live, get-live}
use go_cmms.Http.{
  World, Request, Response, Result, ok, stop, ok_inj, Action, ◌>>=◌, or_reply, bind_ends,
}
use go_cmms.Auth.{read_session, cookie_value, cookie_name, unless_expired, set_session_cookie}

abbrev pub session_at : Option Text → World → Option Session
session_at none w = none
session_at (some sid) w = live w.now w.sessions sid

-- The live session that the request's cookie names.
abbrev pub session_of : Request → World → Option Session
session_of req w = session_at (cookie_value (lookup cookie_name req.cookies)) w

unless_expired-live :
    (now : Time) (o : Option Session)
    → unless_expired now (unless (is_expired now) o) ≡ unless (is_expired now) o
unless_expired-live now none = refl
unless_expired-live now (some s) = ground arith

-- The server with no change but in the session store, where every id still shows what it showed.
pub record SameBut (w w' : World) : Type 0 where
  pub rest : w' ≡ record w { sessions = w'.sessions }
  pub shows : (id : Text) → live w'.now w'.sessions id ≡ live w.now w.sessions id

-- `ReadSession` returns the live session that the cookie names. It changes nothing in the server but
-- the session store, and there nothing that any id shows at that instant.
pub read_session-live :
    (req : Request) (w : World)
    → ((read_session req w).0 ≡ ok (session_of req w)) × SameBut w (read_session req w).1
unfolding read_session
read_session-live req w = elim (Option-cases (cookie_value (lookup cookie_name req.cookies))) [
  | inl e ↦ rw e (refl, record { rest = refl; shows = λ id. refl })
  | inr (sid, e) ↦ rw e (
    ap-ok w sid,
    record {
      rest = refl;
      shows = λ id. (get-live sid id w.now w.now w.sessions (le_refl w.now)).1;
    },
  )
]
  where
    ap-ok :
        (w : World) (sid : Text)
        → ◌≡◌ {A = Result (Option Session)}
            (ok (unless_expired w.now (get sid w.now w.sessions).0))
            (ok (live w.now w.sessions sid))
    ap-ok w sid =
        rw (get-live sid sid w.now w.now w.sessions (le_refl w.now)).0
          (rw (unless_expired-live w.now (lookup sid w.sessions)) refl)

-- The rule for a handler that starts with the session: what it does for the live session of the
-- cookie, and without one.
pub with_session_ends :
    (Q : Result Response × World → Type 0) (req : Request) (w : World) (r : Response)
    (k : Session → Action Response)
    → ((w1 : World) → w1.db ≡ w.db → Q (stop r, w1))
    → ((s : Session) (w1 : World) → session_of req w ≡ some s → w1.db ≡ w.db → Q (k s w1))
    → Q ((read_session req >>= λ found. or_reply found r >>= k) w)
with_session_ends Q req w r k bad good =
    let (value, same) = read_session-live req w in
    bind_ends (λ e. (e.0 ≡ ok (session_of req w)) × (e.1.db ≡ w.db)) Q (read_session req)
      (λ found. or_reply found r >>= k) w (value, ap (λ v. v.db) same.rest)
      (λ found w1 h. go found w1 (ok_inj h.0) h.1) (λ e w1 h. cc)
  where
    go :
        (found : Option Session) (w1 : World)
        → found ≡ session_of req w
        → w1.db ≡ w.db
        → Q ((or_reply found r >>= k) w1)
    go none w1 e h = bad w1 h
    go (some s) w1 e h = good s w1 (sym e) h

-- The session of `SetSessionCookie` is what its cookie names from then on, until it expires; the
-- others stay.
set_session_cookie-live :
    (s : Session) (id : Text) (w : World)
    → live w.now (set_session_cookie s w).1.sessions id ≡ (
        if text_eq (w.entropy w.drawn) id
        then unless (is_expired w.now) (some s)
        else live w.now w.sessions id)
unfolding set_session_cookie create
set_session_cookie-live s id w = ground (arith, lookup-insert (w.entropy w.drawn) id s w.sessions)
