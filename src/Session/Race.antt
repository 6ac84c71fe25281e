-- ===== src/Session/Race.antt =====
-- The store under concurrent calls: `Get` reads under one lock and deletes an expired session
-- under another, the sweeper reads the clock before it takes the lock, and other goroutines run
-- in between. A run is a sequence of critical sections in the order in which the lock is taken.
use go_cmms.Base.{
  Bool, true, false, ◌≡◌, ◌≤◌, ◌||◌, none, some, List, [], ◌∷◌, arith, if◌then◌else◌,
}
use go_cmms.Base.Maps.{lookup, unless, IsUnique, lookup-insert, lookup-erase, lookup-sweep}
use go_cmms.Text.{Text, text_eq, text_eq_iff, text_key}
use go_cmms.Models.{Session, Time}
use go_cmms.Session.{Store, is_expired, create, get_read, delete, sweep_expired}
use go_cmms.Session.Laws.{is_expired_mono, create-IsUnique, delete-IsUnique, sweep_expired-IsUnique}

-- `due` holds the ids of the calls of `Get` that have read an expired session and have not yet
-- deleted it; `issued` the ids that `uuid.NewString` has returned so far.
pub record State : Type 0 where
  pub now : Time
  pub store : Store
  pub due : List Text
  pub issued : List Text

abbrev pub mem : Text → List Text → Bool
mem id [] = false
mem id (j ∷ ids) = text_eq j id || mem id ids

-- The list without its first occurrence of the id.
abbrev drop_one : Text → List Text → List Text
drop_one id [] = []
drop_one id (j ∷ ids) = if text_eq j id then ids else j ∷ drop_one id ids

mem-drop_one : (id j : Text) (ids : List Text) → mem j (drop_one id ids) ≡ true → mem j ids ≡ true
mem-drop_one id j [] h = h
mem-drop_one id j (k ∷ ids) h = ground (arith, mem-drop_one id j ids)

pub data Event : Type 0 where
  advance : Event
  created : Text → Event
  looked : Text → Event
  cleaned : Text → Event
  deleted : Text → Event
  swept : Event

pub data Step (s : State) : Event → State → Type 0 where
  clock : (t : Time) → s.now ≤ t → Step s advance (record s { now = t })
  -- `uuid.NewString` returns an id that it has not returned before.
  create_call :
      (id : Text) (v : Session)
      → mem id s.issued ≡ false
      → Step s (created id) (record s { store = create id v s.store; issued = id ∷ s.issued })
  -- A `Get` that finds nothing, or a live session, changes nothing.
  get_look :
      (id : Text)
      → unless (is_expired s.now) (get_read id s.store) ≡ get_read id s.store
      → Step s (looked id) s
  -- A `Get` that compares with a clock reading `t` and goes on to delete.
  get_expired :
      (id : Text) (v : Session) (t : Time)
      → t ≤ s.now
      → get_read id s.store ≡ some v
      → is_expired t v ≡ true
      → Step s (looked id) (record s { due = id ∷ s.due })
  get_clean :
      (id : Text)
      → mem id s.due ≡ true
      → Step s (cleaned id) (record s { store = delete id s.store; due = drop_one id s.due })
  delete_call : (id : Text) → Step s (deleted id) (record s { store = delete id s.store })
  sweep_tick : (t : Time) → t ≤ s.now → Step s swept (record s { store = sweep_expired t s.store })

-- The ids in use have been issued, and what a pending deletion names has expired.
pub record IsSafe (s : State) : Type 0 where
  pub unique : IsUnique s.store
  pub known : (id : Text) → mem id s.issued ≡ false → lookup id s.store ≡ none
  pub asked : (id : Text) → mem id s.issued ≡ false → mem id s.due ≡ false
  pub stale :
      (id : Text) (v : Session)
      → mem id s.due ≡ true
      → lookup id s.store ≡ some v
      → is_expired s.now v ≡ true

abbrev pub start : Time → State
start t = record { now = t; store = []; due = []; issued = [] }

start-IsSafe : (t : Time) → IsSafe (start t)
unfolding lookup
start-IsSafe t = record {
  unique = tt;
  known = λ id h. ground arith;
  asked = λ id h. ground arith;
  stale = λ id v h e. ground arith;
}

Step-IsSafe : {s t : State} {e : Event} → Step s e t → IsSafe s → IsSafe t
unfolding create delete sweep_expired get_read
Step-IsSafe {s} (clock t h) i = record {
  unique = i.unique;
  known = i.known;
  asked = i.asked;
  stale = λ j v d e. is_expired_mono s.now t v h (i.stale j v d e);
}
Step-IsSafe {s} (create_call id v fresh) i = record {
  unique = create-IsUnique id v s.store i.unique;
  known = λ j h. ground (arith, i.known j, lookup-insert id j v s.store);
  asked = λ j h. ground (arith, i.asked j);
  stale = λ j w d e.
      ground (arith, i.stale j w, i.asked id, lookup-insert id j v s.store, text_eq_iff id j);
}
Step-IsSafe (get_look id h) i = i
Step-IsSafe {s} (get_expired id v t h e x) i = record {
  unique = i.unique;
  known = i.known;
  asked = λ j n. ground (arith, i.asked j n, i.known j n, text_eq_iff id j);
  stale = λ j w d f. ground (arith, i.stale j w, text_eq_iff id j, is_expired_mono t s.now v h x);
}
Step-IsSafe {s} (get_clean id h) i = record {
  unique = delete-IsUnique id s.store i.unique;
  known = λ j n. ground (arith, i.known j n, lookup-erase id j s.store);
  asked = λ j n. ground (arith, i.asked j n, mem-drop_one id j s.due);
  stale =
      λ j w d f. ground (arith, i.stale j w, lookup-erase id j s.store, mem-drop_one id j s.due);
}
Step-IsSafe {s} (delete_call id) i = record {
  unique = delete-IsUnique id s.store i.unique;
  known = λ j n. ground (arith, i.known j n, lookup-erase id j s.store);
  asked = i.asked;
  stale = λ j w d f. ground (arith, i.stale j w, lookup-erase id j s.store);
}
Step-IsSafe {s} (sweep_tick t h) i = record {
  unique = sweep_expired-IsUnique t s.store i.unique;
  known = λ j n. ground (arith, i.known j n, lookup-sweep (is_expired t) j s.store i.unique);
  asked = i.asked;
  stale = λ j w d f. ground (arith, i.stale j w, lookup-sweep (is_expired t) j s.store i.unique);
}

-- The event is no `Delete` of the id.
abbrev pub Spares : Text → Event → Type 0
Spares id (deleted j) = text_eq j id ≡ false
Spares id _ = Unit

pub data Run (s : State) (P : Event → Type 0) : State → Type 0 where
  here : Run s P s
  next : {t u : State} {e : Event} → Run s P t → Step t e u → P e → Run s P u

pub Run-IsSafe : {s : State} {P : Event → Type 0} {t : State} → Run s P t → IsSafe s → IsSafe t
Run-IsSafe here i = i
Run-IsSafe (next r st p) i = Step-IsSafe st (Run-IsSafe r i)

Step-now : {s t : State} {e : Event} → Step s e t → s.now ≤ t.now
Step-now (clock t h) = h
Step-now {s} _ = omega arith

-- One critical section that is no `Delete` of the id keeps a session that is still live after it.
Step-keeps :
    {s t : State} {e : Event} (id : Text) (v : Session)
    → Step s e t
    → IsSafe s
    → Spares id e
    → lookup id s.store ≡ some v
    → is_expired t.now v ≡ false
    → lookup id t.store ≡ some v
unfolding create delete sweep_expired
Step-keeps id v (clock t h) i p f x = f
Step-keeps {s} id v (create_call j w fresh) i p f x =
    ground (arith, i.known j, lookup-insert j id w s.store, text_eq_iff j id)
Step-keeps id v (get_look j h) i p f x = f
Step-keeps id v (get_expired j w t h e y) i p f x = f
Step-keeps {s} id v (get_clean j h) i p f x =
    ground (arith, i.stale id v, lookup-erase j id s.store, text_eq_iff j id)
Step-keeps {s} id v (delete_call j) i p f x = ground (arith, lookup-erase j id s.store)
Step-keeps {s} id v (sweep_tick t h) i p f x =
    ground (arith, lookup-sweep (is_expired t) id s.store i.unique, is_expired_mono t s.now v h)

-- However the calls interleave, a session is lost only by a `Delete` of its id or by expiry: from
-- any state that a run reaches, a run without a `Delete` of the id leaves the session in place as
-- long as it has not expired.
pub Run-keeps :
    {s : State} (began : Time) (id : Text) (v : Session) {t : State}
    → Run (start began) (λ e. Unit) s
    → Run s (Spares id) t
    → lookup id s.store ≡ some v
    → is_expired t.now v ≡ false
    → lookup id t.store ≡ some v
Run-keeps began id v before here f x = f
Run-keeps {s} began id v before (next r st p) f x =
    Step-keeps id v st (Run-IsSafe r (Run-IsSafe before (start-IsSafe began))) p
      (Run-keeps began id v before r f (not-expired st x)) x
  where
    not-expired :
        {a b : State} {e : Event}
        → Step a e b
        → is_expired b.now v ≡ false
        → is_expired a.now v ≡ false
    not-expired {a} {b} st x = ground (arith, Step-now st, is_expired_mono a.now b.now v)
