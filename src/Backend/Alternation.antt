-- ===== src/Backend/Alternation.antt =====
-- The alerts about a person, in any order of the two threads' turns.
pub mod Moves
pub mod Turns
use demo_colombia.Base.{
  refl, ◌∙◌, ℕ, ◌≡◌, ◌==◌, Bool, true, false, not, ◌&&◌, ◌||◌, Option, is_some, List, [], ◌∷◌,
  if◌then◌else◌, arith,
}
use demo_colombia.Backend.{
  raised, asleep, looking, Turn, message, on_message_goes, wakes, check_goes, turn, run_turns,
  on_message_step, check_step, register, no_persons, Presence, update, set_inside, Backend, Alert,
  Callback, Checker, is_inside, idle, registered, alerting, alerted, leaving, left,
}

-- What the alerts about a person say, newest first.
abbrev pub about : ℕ → List Alert → List Bool
about p [] = []
about p (a ∷ rest) = if a.person == p then a.entrance ∷ about p rest else about p rest

abbrev pub was_inside : List Bool → Bool
was_inside [] = false
was_inside (e ∷ es) = e

-- The first tells an entrance, and each tells the opposite of the one before it.
abbrev pub Alternates : List Bool → Type 0
Alternates [] = Unit
Alternates (e ∷ es) = (e ≡ not (was_inside es)) × Alternates es

abbrev pub handles : ℕ → Callback → Bool
handles p idle = false
handles p raised = false
handles p (registered q) = q == p
handles p (alerting q) = q == p
handles p (alerted q) = q == p

abbrev pub enters : ℕ → Callback → Bool
enters p (alerting q) = q == p
enters p (alerted q) = q == p
enters p _ = false

abbrev pub announced : ℕ → Callback → Bool
announced p (alerted q) = q == p
announced p _ = false

abbrev pub exits : ℕ → Checker → Bool
exits p (leaving now q ids) = q == p
exits p (left now q ids) = q == p
exits p _ = false

abbrev pub retired : ℕ → Checker → Bool
retired p (left now q ids) = q == p
retired p _ = false

-- The dictionary agrees with the alerts, but for an alert whose thread has yet to write it down: what
-- the alerts say of a person, whether it is inside and there, and where the threads are.
pub record AgreesAt (p : ℕ) (es : List Bool) (within known : Bool) (callback : Callback)
    (checker : Checker) : Type 0 where
  pub alternates : Alternates es
  pub told : was_inside es ≡ ((within || announced p callback) && not (retired p checker))
  pub there : handles p callback ≡ true → known ≡ true
  pub outside : enters p callback ≡ true → within ≡ false
  pub inside : exits p checker ≡ true → within ≡ true

abbrev pub Agrees : ℕ → Backend → Type 0
Agrees p b =
    AgreesAt p (about p b.alerts) (is_inside (b.person_state p)) (is_some (b.person_state p))
      b.callback b.checker

pub update_keeps :
    (p id now : ℕ) (states : ℕ → Option Presence)
    → is_inside (update id now states p) ≡ is_inside (states p)
unfolding update
update_keeps p id now states = ground arith

pub update_knows :
    (p id now : ℕ) (states : ℕ → Option Presence)
    → is_some (update id now states p) ≡ ((id == p) || is_some (states p))
unfolding update
update_knows p id now states = ground arith

pub set_inside_sets :
    (p id : ℕ) (x : Bool) (states : ℕ → Option Presence)
    → is_inside (set_inside id x states p)
      ≡ (if (id == p) && is_some (states p) then x else is_inside (states p))
unfolding set_inside
set_inside_sets p id x states = ground arith

pub set_inside_knows :
    (p id : ℕ) (x : Bool) (states : ℕ → Option Presence)
    → is_some (set_inside id x states p) ≡ is_some (states p)
unfolding set_inside
set_inside_knows p id x states = ground arith
