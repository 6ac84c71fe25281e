-- ===== src/Tests/Stores.antt =====
-- The stores and the pure parts on concrete inputs.
use go_cmms.Base.{ℕ, ◌+◌, ◌*◌, ◌≤◌, ◌≡◌, ◌↔◌, refl, true, some, List, [], ◌∷◌, arith}
use go_cmms.Base.Int.{pos}
use go_cmms.Base.Maps.{lookup, insert, IsUnique}
use go_cmms.Text.{Text, codes, text_eq, text_key}
use go_cmms.Models.{Session, role_owner, role_admin}
use go_cmms.Session.{create, get, sweep_expired}
use go_cmms.Session.Laws.{live, get-live, sweep_expired-live}
use go_cmms.Session.Race.{State, Step, Run, start, Spares, Run-keeps}
use go_cmms.RateLimit.{one_token, rate_of, burst_of, new_limiter}
use go_cmms.RateLimit.Bound.{run-le}
use go_cmms.RateLimit.Calls.{Ordered, run}
use go_cmms.Slug.{is_valid_slug}
use go_cmms.Slug.Spec.{IsSlug, is_valid_slug_iff}
use go_cmms.Roles.{role_passes, role_levels}
use go_cmms.Roles.Laws.{Covers, role_passes_iff}
use go_cmms.Phc.{phc_encode, phc_parse, ArgonParams}
use go_cmms.Phc.Encoding.{Bytes}
use go_cmms.Phc.RoundTrip.{phc_parse-encode}
use go_cmms.Tests.{amy_session}

old_session : Session
old_session = record { user_id = 2; active_org = 7; provider = codes "local"; expiry = 5 }

abbrev two_sessions : List (Text × Session)
two_sessions = (codes "a", amy_session) ∷ (codes "b", old_session) ∷ []

get-live_example :
    ((get (codes "b") 9 two_sessions).0 ≡ live 9 two_sessions (codes "b"))
    × (live 10 (get (codes "b") 9 two_sessions).1 (codes "a") ≡ live 10 two_sessions (codes "a"))
get-live_example = get-live (codes "b") (codes "a") 9 10 two_sessions (omega arith)

two_sessions-IsUnique : IsUnique two_sessions
unfolding lookup text_eq
two_sessions-IsUnique = (refl, (refl, tt))

sweep_expired-live_example :
    live 10 (sweep_expired 9 two_sessions) (codes "a") ≡ live 10 two_sessions (codes "a")
sweep_expired-live_example =
    sweep_expired-live (codes "a") 9 10 two_sessions two_sessions-IsUnique (omega arith)

abbrev one_state : State
one_state = record {
  now = 9;
  store = create (codes "a") amy_session [];
  due = [];
  issued = codes "a" ∷ [];
}

-- One session is created, then the sweeper runs.
abbrev one_run : Run (start 9) (λ e. Unit) one_state
one_run = Run.next Run.here (Step.create_call (codes "a") amy_session refl) tt

abbrev swept_state : State
swept_state = record one_state { store = sweep_expired 8 one_state.store }

abbrev swept_run : Run one_state (Spares (codes "a")) swept_state
swept_run = Run.next Run.here (Step.sweep_tick 8 (omega arith)) tt

Run-keeps_example : lookup (codes "a") swept_state.store ≡ some amy_session
unfolding create insert lookup text_eq
Run-keeps_example =
    Run-keeps {s = one_state} 9 (codes "a") amy_session {t = swept_state} one_run swept_run refl
      refl

-- A client spends its token, is idle for an hour, and comes back.
abbrev early : List (Text × ℕ)
early = (codes "u", 1) ∷ (codes "v", 2) ∷ []

abbrev late : List (Text × ℕ)
late = (codes "u", 3_600_000_000_000) ∷ (codes "u", 3_600_000_000_001) ∷ []

early-Ordered : Ordered 1 3_600_000_000_000 early
early-Ordered = ground arith

late-Ordered : Ordered 3_600_000_000_000 3_600_000_000_002 late
late-Ordered = ground arith

run-le_example :
    (run (codes "u") late (run (codes "u") early (new_limiter (pos 60) (pos 1) 5)).1).0 * one_token
      + 3_600_000_000_000 * rate_of (pos 60)
    ≤ burst_of (pos 1) * one_token + 3_600_000_000_002 * rate_of (pos 60)
run-le_example =
    run-le (pos 60) (pos 1) 5 (codes "u") 1 3_600_000_000_000 3_600_000_000_002 early late
      early-Ordered late-Ordered

is_valid_slug_iff_example : (is_valid_slug (codes "acme-2") ≡ true) ↔ IsSlug (codes "acme-2")
is_valid_slug_iff_example = is_valid_slug_iff (codes "acme-2")

role_passes_iff_example :
    (role_passes (role_admin ∷ []) role_owner ≡ true)
    ↔ ((n : ℕ) × (lookup role_owner role_levels ≡ some n) × Covers (role_admin ∷ []) n)
role_passes_iff_example = role_passes_iff (role_admin ∷ []) role_owner

abbrev four_bytes : Text
four_bytes = 0 ∷ 255 ∷ 16 ∷ 7 ∷ []

four_bytes-Bytes : Bytes four_bytes
four_bytes-Bytes = ground arith

abbrev two_lanes : ArgonParams
two_lanes = record { memory = 65536; time = 3; threads = 2; salt_len = 4; key_len = 4 }

phc_parse-encode_example :
    phc_parse (phc_encode two_lanes four_bytes four_bytes)
    ≡ some (record { memory = 65536; time = 3; threads = 2; salt = four_bytes; key = four_bytes })
phc_parse-encode_example =
    phc_parse-encode two_lanes four_bytes four_bytes (omega arith) (omega arith) (omega arith)
      four_bytes-Bytes four_bytes-Bytes
