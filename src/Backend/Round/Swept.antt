-- ===== src/Backend/Round/Swept.antt =====
-- What a round of `check_no_change` leaves of one person.
use demo_colombia.Base.{
  ==_iff, ℕ, ◌+◌, ◌*◌, ◌≤◌, ◌≡◌, refl, sym, ap, subst, ◌∙◌, inl, inr, ◌==◌, Bool-cases, Bool, true,
  false, not, ◌||◌, ◌&&◌, List, [], ◌∷◌, length, arith, if◌then◌else◌,
}
use demo_colombia.Backend.{
  Presence, Option, is_some, Backend, wakes, turn, is_gone, is_inside, set_inside, asleep, looking,
}
use demo_colombia.Backend.Alternation.{about, set_inside_sets}
use demo_colombia.Backend.Round.{
  checks, sweep_one, sweep, leaves, sweep_one_gone, sweep_one_stays, checks-sweep,
}

-- The person is among these.
abbrev pub listed : ℕ → List ℕ → Bool
listed p [] = false
listed p (q ∷ qs) = q == p || listed p qs

-- What a round, or a part of it, leaves of one person: it tells of the person at most once.
pub record Swept (p : ℕ) (told gone : Bool) (before after : Backend) : Type 0 where
  pub tells :
      about p after.alerts
      ≡ (if told && gone then false ∷ about p before.alerts else about p before.alerts)
  pub puts :
      is_inside (after.person_state p)
      ≡ (if told && gone then false else is_inside (before.person_state p))

is_gone-set_inside :
    (now p : ℕ) (states : ℕ → Option Presence) → is_gone now (set_inside p false states p) ≡ false
unfolding is_gone set_inside
is_gone-set_inside now p states = ground arith

set_inside_other :
    (p id : ℕ) (states : ℕ → Option Presence)
    → (id == p) ≡ false
    → set_inside id false states p ≡ states p
unfolding set_inside
set_inside_other p id states e = ground arith

-- The person of a step, and another.
leaves-Swept :
    (p : ℕ) (b : Backend) → is_some (b.person_state p) ≡ true → Swept p true true b (leaves p b)
leaves-Swept p b there =
    let self : (p == p) ≡ true = ground arith in
    record {
      tells = rw self refl;
      puts = set_inside_sets p p false b.person_state ∙ rw (self, there) refl;
    }

leaves_other :
    (p id : ℕ) (gone : Bool) (b : Backend) → (id == p) ≡ false → Swept p false gone b (leaves id b)
leaves_other p id gone b other = record {
  tells = rw other refl;
  puts = ap is_inside (set_inside_other p id b.person_state other);
}

same_as : (p : ℕ) (told gone : Bool) (b : Backend) → (told && gone) ≡ false → Swept p told gone b b
same_as p told gone b e = record { tells = rw e refl; puts = rw e refl }

pub is_gone-is_some : (now : ℕ) (s : Option Presence) → is_gone now s ≡ true → is_some s ≡ true
unfolding is_gone
is_gone-is_some now s e = ground arith

-- One step, with whether the person is gone after it.
abbrev OneStep : ℕ → ℕ → Bool → Backend → Backend → Type 0
OneStep p now it before after =
    let gone = is_gone now (before.person_state p) in
    Swept p it gone before after × (is_gone now (after.person_state p) ≡ (gone && not it))

sweep_one_self : (p now : ℕ) (b : Backend) → OneStep p now true b (sweep_one now p b)
sweep_one_self p now b = elim (Bool-cases (is_gone now (b.person_state p))) [
  | inl gone ↦ subst (OneStep p now true b) (sym (sweep_one_gone now p b gone)) (
      rw gone (
        leaves-Swept p b (is_gone-is_some now (b.person_state p) gone),
        is_gone-set_inside now p b.person_state,
      ))
  | inr stays ↦
      subst (OneStep p now true b) (sym (sweep_one_stays now p b stays))
        (rw stays (same_as p true false b refl, refl))
]

sweep_one_other :
    (p now id : ℕ) (b : Backend) → (id == p) ≡ false → OneStep p now false b (sweep_one now id b)
sweep_one_other p now id b other = elim (Bool-cases (is_gone now (b.person_state id))) [
  | inl gone ↦ subst (OneStep p now false b) (sym (sweep_one_gone now id b gone)) (
    leaves_other p id (is_gone now (b.person_state p)) b other,
    ap (is_gone now) (set_inside_other p id b.person_state other) ∙ ground arith,
  )
  | inr stays ↦
      subst (OneStep p now false b) (sym (sweep_one_stays now id b stays))
        (same_as p false (is_gone now (b.person_state p)) b refl, ground arith)
]

sweep_one-OneStep : (p now id : ℕ) (b : Backend) → OneStep p now (id == p) b (sweep_one now id b)
sweep_one-OneStep p now id b = elim (Bool-cases (id == p)) [
  | inl e ↦
      subst (λ q. OneStep p now (id == p) b (sweep_one now q b)) (sym ((==_iff id p).0 e))
        (rw e (sweep_one_self p now b))
  | inr other ↦ rw other (sweep_one_other p now id b other)
]

after_both :
    {A : Type 0} (it told gone gone' : Bool) (old new mid new' out : A)
    → mid ≡ (if it && gone then new else old)
    → gone' ≡ (gone && not it)
    → ((it && gone) ≡ false → new' ≡ new)
    → out ≡ (if told && gone' then new' else mid)
    → out ≡ (if (it || told) && gone then new else old)
after_both true told true gone' old new mid new' out a b c d = ground arith
after_both true told false gone' old new mid new' out a b c d = ground arith
after_both false true true gone' old new mid new' out a b c d = d ∙ rw b (c refl)
after_both false true false gone' old new mid new' out a b c d = ground arith
after_both false false gone gone' old new mid new' out a b c d = d ∙ a

sweep-Swept :
    (p now : ℕ) (ids : List ℕ) (b : Backend)
    → Swept p (listed p ids) (is_gone now (b.person_state p)) b (sweep now ids b)
sweep-Swept p now [] b = same_as p false (is_gone now (b.person_state p)) b refl
sweep-Swept p now (id ∷ ids) b =
    let (one, left_gone) = sweep_one-OneStep p now id b in
    let rest = sweep-Swept p now ids (sweep_one now id b) in
    let gone = is_gone now (b.person_state p) in
    let gone' = is_gone now ((sweep_one now id b).person_state p) in
    record {
      tells =
          after_both (id == p) (listed p ids) gone gone' (about p b.alerts)
            (false ∷ about p b.alerts) _ _ _ one.tells left_gone
            (λ e. ap (λ es. false ∷ es) (one.tells ∙ rw e refl)) rest.tells;
      puts =
          after_both (id == p) (listed p ids) gone gone' (is_inside (b.person_state p)) false _
            false _ one.puts left_gone (λ e. refl) rest.puts;
    }

wakes_begins :
    (now : ℕ) (b : Backend)
    → b.checker ≡ asleep
    → turn (wakes now) b ≡ record b { checker = looking now b.persons }
unfolding turn
wakes_begins now b e = rw e refl

-- A round that no message interrupts ends within three steps for each person and one more. It tells of
-- an exit, once, of just the persons that are inside with their last update more than the threshold
-- ago, and puts them outside; of every other person it tells nothing, and leaves it inside or outside.
pub round_reports :
    (p now n : ℕ) (b : Backend)
    → b.checker ≡ asleep
    → 3 * length b.persons + 1 ≤ n
    → let b' = checks n (turn (wakes now) b) in
      (b'.checker ≡ asleep) × Swept p (listed p b.persons) (is_gone now (b.person_state p)) b b'
round_reports p now n b e le =
    let ends : checks n (turn (wakes now) b) ≡ record (sweep now b.persons b) { checker = asleep } =
      ap (checks n) (wakes_begins now b e) ∙ checks-sweep now b.persons n b le in
    let s = sweep-Swept p now b.persons b in
    (
      ap (λ c. c.checker) ends,
      record {
        tells = ap (λ c. about p c.alerts) ends ∙ s.tells;
        puts = ap (λ c. is_inside (c.person_state p)) ends ∙ s.puts;
      },
    )
