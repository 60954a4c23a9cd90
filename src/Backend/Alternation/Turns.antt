-- ===== src/Backend/Alternation/Turns.antt =====
-- In any order of the turns the alerts about each person alternate.
use demo_colombia.Messages.{JsonObject}
use demo_colombia.Base.{
  Bool, ◌||◌, ◌&&◌, ==_iff, Option-cases, ℕ, ◌≡◌, refl, sym, ap, subst, ◌∙◌, inl, inr, Bool-cases,
  true, false, Option, is_some, List, [], ◌∷◌, arith,
}
use demo_colombia.Backend.{
  receive, raised, person_of, asleep, looking, Turn, message, on_message_goes, wakes, check_goes,
  turn, run_turns, on_message_step, check_step, register, no_persons, Backend, Callback, Checker,
  idle, registered, alerting, alerted, leaving, left, is_gone, is_inside, Presence,
}
use demo_colombia.Backend.Alternation.{
  was_inside, Alternates, Agrees, AgreesAt, about, update_keeps, update_knows, set_inside_sets,
  set_inside_knows,
}
use demo_colombia.Backend.Alternation.Moves.{
  raises, registers, finds_inside, finds_outside, tells_entrance, notes_entrance, begins, ends,
  passes, finds_gone, tells_exit, notes_exit,
}

is_gone-is_inside : (now : ℕ) (s : Option Presence) → is_gone now s ≡ true → is_inside s ≡ true
unfolding is_gone
is_gone-is_inside now s e = ground arith

is_inside-is_some : (s : Option Presence) → is_inside s ≡ true → is_some s ≡ true
is_inside-is_some s e = ground arith

module _ (p : ℕ) where
  -- What is seen of a person.
  abbrev Seen : Backend → Callback → Checker → Type 0
  Seen b = AgreesAt p (about p b.alerts) (is_inside (b.person_state p)) (is_some (b.person_state p))

  register-Agrees :
      (id now : ℕ) (b : Backend) → b.callback ≡ idle → Agrees p b → Agrees p (register id now b)
  unfolding register
  register-Agrees id now b e v =
      rw (update_keeps p id now b.person_state, update_knows p id now b.person_state)
        (registers p (about p b.alerts) (is_inside (b.person_state p)) (is_some (b.person_state p))
          id b.checker (subst (λ c. Seen b c b.checker) e v))

  receive-Agrees :
      (payload : JsonObject) (now : ℕ) (b : Backend)
      → b.callback ≡ idle
      → Agrees p b
      → Agrees p (receive payload now b)
  unfolding receive
  receive-Agrees payload now b e v = elim (Option-cases (person_of payload)) [
    | inl f ↦
        rw (f, receive)
          (raises p (about p b.alerts) (is_inside (b.person_state p)) (is_some (b.person_state p))
            b.checker (subst (λ c. Seen b c b.checker) e v))
    | inr (id, f) ↦ rw (f, receive) (register-Agrees id now b e v)
  ]

  on_message_step-Agrees : (b : Backend) → Agrees p b → Agrees p (on_message_step b)
  unfolding on_message_step
  on_message_step-Agrees b v = from b.callback refl
    where
      es : List Bool
      es = about p b.alerts

      within : Bool
      within = is_inside (b.person_state p)

      known : Bool
      known = is_some (b.person_state p)

      from : (c : Callback) → b.callback ≡ c → Agrees p (on_message_step b)
      from idle e = rw e (subst (λ c. Seen b c b.checker) e v)
      from raised e = rw e (subst (λ c. Seen b c b.checker) e v)
      from (registered id) e = elim (Bool-cases (is_inside (b.person_state id))) [
        | inl yes_inside ↦
            rw (e, yes_inside)
              (finds_inside p es within known id b.checker (subst (λ c. Seen b c b.checker) e v))
        | inr not_inside ↦
            rw (e, not_inside)
              (finds_outside p es within known id b.checker
                (λ h. ap (λ q. is_inside (b.person_state q)) (sym ((==_iff id p).0 h)) ∙ not_inside)
                (subst (λ c. Seen b c b.checker) e v))
      ]
      from (alerting id) e =
          rw e (tells_entrance p es within known id b.checker (subst (λ c. Seen b c b.checker) e v))
      from (alerted id) e =
          rw
            (e, set_inside_sets p id true b.person_state, set_inside_knows p id true b.person_state)
            (notes_entrance p es within known id b.checker (subst (λ c. Seen b c b.checker) e v))

  check_step-Agrees : (b : Backend) → Agrees p b → Agrees p (check_step b)
  unfolding check_step
  check_step-Agrees b v = from b.checker refl
    where
      es : List Bool
      es = about p b.alerts

      within : Bool
      within = is_inside (b.person_state p)

      known : Bool
      known = is_some (b.person_state p)

      from : (k : Checker) → b.checker ≡ k → Agrees p (check_step b)
      from asleep e = rw e (subst (Seen b b.callback) e v)
      from (looking now []) e =
          rw e (ends p es within known now b.callback (subst (Seen b b.callback) e v))
      from (looking now (id ∷ ids)) e = elim (Bool-cases (is_gone now (b.person_state id))) [
        | inl gone ↦
            rw (e, gone)
              (finds_gone p es within known now id ids b.callback
                (λ h.
                  ap (λ q. is_inside (b.person_state q)) (sym ((==_iff id p).0 h))
                  ∙ is_gone-is_inside now (b.person_state id) gone)
                (subst (Seen b b.callback) e v))
        | inr stays ↦
            rw (e, stays)
              (passes p es within known now id ids b.callback (subst (Seen b b.callback) e v))
      ]
      from (leaving now id ids) e =
          rw e (tells_exit p es within known now id ids b.callback (subst (Seen b b.callback) e v))
      from (left now id ids) e =
          rw
            (
              e,
              set_inside_sets p id false b.person_state,
              set_inside_knows p id false b.person_state,
            )
            (notes_exit p es within known now id ids b.callback
              (is_inside-is_some (b.person_state p)) (subst (Seen b b.callback) e v))

  turn-Agrees : (t : Turn) (b : Backend) → Agrees p b → Agrees p (turn t b)
  unfolding turn
  turn-Agrees (message payload now) b v = from b.callback refl
    where
      from : (c : Callback) → b.callback ≡ c → Agrees p (turn (message payload now) b)
      from idle e = rw e (receive-Agrees payload now b e v)
      from raised e = rw e (subst (λ c. Seen b c b.checker) e v)
      from (registered q) e = rw e (subst (λ c. Seen b c b.checker) e v)
      from (alerting q) e = rw e (subst (λ c. Seen b c b.checker) e v)
      from (alerted q) e = rw e (subst (λ c. Seen b c b.checker) e v)
  turn-Agrees on_message_goes b v = on_message_step-Agrees b v
  turn-Agrees (wakes now) b v = from b.checker refl
    where
      from : (k : Checker) → b.checker ≡ k → Agrees p (turn (wakes now) b)
      from asleep e = rw e (
          begins p (about p b.alerts) (is_inside (b.person_state p)) (is_some (b.person_state p))
            now b.persons b.callback (subst (Seen b b.callback) e v))
      from (looking t ids) e = rw e (subst (Seen b b.callback) e v)
      from (leaving t q ids) e = rw e (subst (Seen b b.callback) e v)
      from (left t q ids) e = rw e (subst (Seen b b.callback) e v)
  turn-Agrees check_goes b v = check_step-Agrees b v

  -- In any order of the turns, where the dictionary agreed it agrees.
  pub run_turns-Agrees : (ts : List Turn) (b : Backend) → Agrees p b → Agrees p (run_turns ts b)
  run_turns-Agrees [] b v = v
  run_turns-Agrees (t ∷ ts) b v = run_turns-Agrees ts (turn t b) (turn-Agrees t b v)

  pub no_persons-Agrees : Agrees p no_persons
  no_persons-Agrees = record {
    alternates = tt;
    told = refl;
    there = λ e. absurd cc;
    outside = λ e. refl;
    inside = λ e. e;
  }

  -- In any order of the turns of the two threads from the start, with any messages and any clock, the
  -- alerts about a person alternate: an entrance first, and each alert the opposite of the one before
  -- it; and when neither thread is under way, the dictionary has the person inside just if the last
  -- alert about it told an entrance.
  pub alerts-Alternate :
      (ts : List Turn)
      → let b = run_turns ts no_persons in
        Alternates (about p b.alerts)
        × (b.callback ≡ idle
            → b.checker ≡ asleep
            → was_inside (about p b.alerts) ≡ is_inside (b.person_state p))
  alerts-Alternate ts =
      let b = run_turns ts no_persons in
      let v = run_turns-Agrees ts no_persons no_persons-Agrees in
      (v.alternates, λ c k. v.told ∙ rw (c, k) (plain (is_inside (b.person_state p))))
    where
      plain : (within : Bool) → ((within || false) && true) ≡ within
      plain within = ground arith
