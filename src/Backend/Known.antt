-- ===== src/Backend/Known.antt =====
-- The persons of the dictionary are listed among its keys, so a round visits each of them.
use demo_colombia.Base.{
  if◌then◌else◌, ◌&&◌, false, ℕ, ◌+◌, ◌*◌, ◌≤◌, ◌≡◌, refl, sym, ap, subst, ◌∙◌, inl, inr, ◌==◌,
  ==_iff, Bool-cases, Option-cases, Bool, true, ◌||◌, is_some, List, [], ◌∷◌, ◌++◌, length, arith,
}
use demo_colombia.Messages.{JsonObject}
use demo_colombia.Backend.{
  Backend, Callback, Checker, Turn, turn, run_turns, no_persons, message, on_message_goes, wakes,
  check_goes, register, receive, person_of, on_message_step, check_step, is_gone, is_inside, idle,
  raised, registered, alerting, alerted, asleep, looking, leaving, left,
}
use demo_colombia.Backend.Alternation.{about, update_knows, set_inside_knows}
use demo_colombia.Backend.Round.{checks}
use demo_colombia.Backend.Round.Swept.{listed, Swept, round_reports, is_gone-is_some}

listed-append : (p id : ℕ) (ids : List ℕ) → listed p (ids ++ id ∷ []) ≡ (listed p ids || (id == p))
listed-append p id [] = ground arith
listed-append p id (q ∷ qs) = ground (arith, listed-append p id qs)

abbrev pub Known : ℕ → Backend → Type 0
Known p b = is_some (b.person_state p) ≡ true → listed p b.persons ≡ true

module _ (p : ℕ) where
  register-Known : (id now : ℕ) (b : Backend) → Known p b → Known p (register id now b)
  unfolding register
  register-Known id now b v e =
      let either : ((id == p) || is_some (b.person_state p)) ≡ true =
        sym (update_knows p id now b.person_state) ∙ e in
      elim (Bool-cases (is_some (b.person_state id))) [
        | inl old ↦ rw old (
            v (elim (Bool-cases (id == p)) [
              | inl here ↦ subst (λ q. is_some (b.person_state q) ≡ true) ((==_iff id p).0 here) old
              | inr other ↦ ground arith
            ]))
        | inr new ↦ rw (new, listed-append p id b.persons) (ground (arith, v))
      ]

  receive-Known :
      (payload : JsonObject) (now : ℕ) (b : Backend) → Known p b → Known p (receive payload now b)
  unfolding receive
  receive-Known payload now b v = elim (Option-cases (person_of payload)) [
    | inl f ↦ rw (f, receive) v
    | inr (id, f) ↦ rw (f, receive) (register-Known id now b v)
  ]

  on_message_step-Known : (b : Backend) → Known p b → Known p (on_message_step b)
  unfolding on_message_step
  on_message_step-Known b v = from b.callback refl
    where
      from : (c : Callback) → b.callback ≡ c → Known p (on_message_step b)
      from idle e = rw e v
      from raised e = rw e v
      from (registered id) e = elim (Bool-cases (is_inside (b.person_state id))) [
        | inl f ↦ rw (e, f) v
        | inr f ↦ rw (e, f) v
      ]
      from (alerting id) e = rw e v
      from (alerted id) e = rw (e, set_inside_knows p id true b.person_state) v

  check_step-Known : (b : Backend) → Known p b → Known p (check_step b)
  unfolding check_step
  check_step-Known b v = from b.checker refl
    where
      from : (k : Checker) → b.checker ≡ k → Known p (check_step b)
      from asleep e = rw e v
      from (looking now []) e = rw e v
      from (looking now (id ∷ ids)) e = elim (Bool-cases (is_gone now (b.person_state id))) [
        | inl f ↦ rw (e, f) v
        | inr f ↦ rw (e, f) v
      ]
      from (leaving now id ids) e = rw e v
      from (left now id ids) e = rw (e, set_inside_knows p id false b.person_state) v

  turn-Known : (t : Turn) (b : Backend) → Known p b → Known p (turn t b)
  unfolding turn
  turn-Known (message payload now) b v = from b.callback refl
    where
      from : (c : Callback) → b.callback ≡ c → Known p (turn (message payload now) b)
      from idle e = rw e (receive-Known payload now b v)
      from raised e = rw e v
      from (registered id) e = rw e v
      from (alerting id) e = rw e v
      from (alerted id) e = rw e v
  turn-Known on_message_goes b v = on_message_step-Known b v
  turn-Known (wakes now) b v = from b.checker refl
    where
      from : (k : Checker) → b.checker ≡ k → Known p (turn (wakes now) b)
      from asleep e = rw e v
      from (looking t ids) e = rw e v
      from (leaving t q ids) e = rw e v
      from (left t q ids) e = rw e v
  turn-Known check_goes b v = check_step-Known b v

  run_turns-Known : (ts : List Turn) (b : Backend) → Known p b → Known p (run_turns ts b)
  run_turns-Known [] b v = v
  run_turns-Known (t ∷ ts) b v = run_turns-Known ts (turn t b) (turn-Known t b v)

told_all :
    (p : ℕ) (told gone : Bool) (before after : Backend)
    → Swept p told gone before after
    → (gone ≡ true → told ≡ true)
    → Swept p true gone before after
told_all p told gone before after s h =
    let same : (told && gone) ≡ gone = both told gone h in
    record {
      tells =
          s.tells
          ∙ ap (λ x. if x then false ∷ about p before.alerts else about p before.alerts) same;
      puts = s.puts ∙ ap (λ x. if x then false else is_inside (before.person_state p)) same;
    }
  where
    both : (t g : Bool) → (g ≡ true → t ≡ true) → (t && g) ≡ g
    both true g i = refl
    both false true i = i refl
    both false false i = refl

-- In whatever order the threads took their turns from the start: if `check_no_change` sleeps, a round
-- that no message interrupts ends within three steps for each person of the dictionary and one more. If
-- the person is inside and its last update is more than the threshold ago, the round tells one exit of
-- it and puts it outside; otherwise it tells nothing of it and leaves it inside or outside.
pub gone-Swept :
    (p now n : ℕ) (ts : List Turn)
    → let b = run_turns ts no_persons in
      b.checker ≡ asleep
      → 3 * length b.persons + 1 ≤ n
      → let b' = checks n (turn (wakes now) b) in
        (b'.checker ≡ asleep) × Swept p true (is_gone now (b.person_state p)) b b'
gone-Swept p now n ts e le =
    let b = run_turns ts no_persons in
    let (ends, s) = round_reports p now n b e le in
    (
      ends,
      told_all p (listed p b.persons) (is_gone now (b.person_state p)) b
          (checks n (turn (wakes now) b)) s
          (λ gone.
            run_turns-Known p ts no_persons (λ h. absurd cc)
              (is_gone-is_some now (b.person_state p) gone)),
    )
