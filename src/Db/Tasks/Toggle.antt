-- ===== src/Db/Tasks/Toggle.antt =====
-- `toggleTaskCompletion` over sequences of toggles.
use go_cmms.Base.{◌≡◌, refl, Bool, true, false, Option, none, some, List, [], ◌∷◌, arith}
use go_cmms.Text.{Text, codes}
use go_cmms.Models.{Time}
use go_cmms.Db.{TaskRow}
use go_cmms.Db.Tasks.{toggle}

-- A sequence of toggles, each at its time.
unfoldable pub toggles : List (Bool × Time) → TaskRow → TaskRow
unfolding toggle
toggles [] t = t
toggles ((complete, now) ∷ more) t = toggles more (toggle complete now t)

-- No task is completed twice with no reopening in between.
abbrev pub IsAlternating : Bool → List (Bool × Time) → Type 0
IsAlternating done [] = Unit
IsAlternating true ((true, now) ∷ more) = ⊥
IsAlternating true ((false, now) ∷ more) = IsAlternating false more
IsAlternating false ((complete, now) ∷ more) = IsAlternating complete more

-- The last toggle, or the state before all of them.
abbrev pub last_of : Bool → List (Bool × Time) → Bool
last_of done [] = done
last_of done ((complete, now) ∷ more) = last_of complete more

abbrev pub value_or_open : Option Text → Text
value_or_open none = codes "OPEN"
value_or_open (some v) = v

-- The task is complete with the value stashed, or it has the value.
abbrev Stashed : Text → Bool → TaskRow → Type 0
Stashed v true t = (t.value ≡ some (codes "COMPLETE")) × (value_or_open t.previous_value ≡ v)
Stashed v false t = (t.value ≡ some v) × (value_or_open t.previous_value ≡ v)

toggle-Stashed :
    (v : Text) (done complete : Bool) (now : Time) (t : TaskRow)
    → IsAlternating done ((complete, now) ∷ [])
    → Stashed v done t
    → Stashed v complete (toggle complete now t)
unfolding toggle
toggle-Stashed v done complete now t a s = ground arith

toggles-Stashed :
    (v : Text) (done : Bool) (ops : List (Bool × Time)) (t : TaskRow)
    → IsAlternating done ops
    → Stashed v done t
    → Stashed v (last_of done ops) (toggles ops t)
unfolding toggles
toggles-Stashed v done [] t a s = s
toggles-Stashed v true ((true, now) ∷ more) t a s = absurd a
toggles-Stashed v true ((false, now) ∷ more) t a s =
    toggles-Stashed v false more (toggle false now t) a (toggle-Stashed v true false now t tt s)
toggles-Stashed v false ((complete, now) ∷ more) t a s =
    toggles-Stashed v complete more (toggle complete now t) a
      (toggle-Stashed v false complete now t tt s)

-- What a task shows after a completion and any more toggles.
abbrev pub shown : Text → Bool → Text
shown v true = codes "COMPLETE"
shown v false = v

-- A task that is completed and then toggled on, never completed twice in a row, shows "COMPLETE"
-- while it is complete, and its value from before (or "OPEN", if it had none) whenever it is open.
pub toggles-shown :
    (now : Time) (ops : List (Bool × Time)) (t : TaskRow)
    → IsAlternating true ops
    → (toggles ((true, now) ∷ ops) t).value
      ≡ some (shown (value_or_open t.value) (last_of true ops))
unfolding toggles toggle
toggles-shown now ops t a =
    go (last_of true ops)
      (toggles-Stashed (value_or_open t.value) true ops (toggle true now t) a (refl, refl))
  where
    go :
        (done : Bool)
        → Stashed (value_or_open t.value) done (toggles ops (toggle true now t))
        → (toggles ops (toggle true now t)).value ≡ some (shown (value_or_open t.value) done)
    go true (e, f) = e
    go false (e, f) = e
