-- ===== src/Backend/Heard.antt =====
-- A message of the perception service, handled while no round is under way.
use demo_colombia.Base.{
  Bool-cases, inl, inr, ap, sym, arith, ==_iff, ◌∙◌, ◌==◌, ◌&&◌, ◌||◌, if◌then◌else◌, not, true,
  false, map, ℕ, ◌≡◌, refl, subst, Option, none, some, List, [], ◌∷◌,
}
use demo_colombia.ObjInfo.{ObjInfo, Heap}
use demo_colombia.Messages.{JsonObject, message_floats, object_members, set_mqtt_message}
use demo_colombia.Backend.Alternation.{about, update_keeps, update_knows, set_inside_sets}
use demo_colombia.Backend.{
  receive, update, registered, on_message_step, register, idle, set_inside, turn, Backend, message,
  on_message_goes, run_turns, person_of, is_inside,
}
use demo_colombia.Backend.Alternation.{about}

-- The message of an object names its person.
person_of-set_mqtt_message :
    (widen : ℕ → ℕ) (o : ObjInfo ℕ) (h : Heap) (payload : JsonObject)
    → set_mqtt_message widen o h ≡ some payload
    → person_of payload ≡ some o.object_id
unfolding person_of set_mqtt_message object_members
person_of-set_mqtt_message widen o h payload e = from (message_floats o h) refl
  where
    from : (r : Option (List ℕ)) → message_floats o h ≡ r → person_of payload ≡ some o.object_id
    from none f =
        absurd (let g : set_mqtt_message widen o h ≡ none = rw (f, set_mqtt_message) refl in cc)
    from (some xs) f =
        let g : set_mqtt_message widen o h ≡ some (object_members o (map widen xs)) =
          rw (f, set_mqtt_message) refl in
        let same : object_members o (map widen xs) ≡ payload = cc in
        subst (λ m. person_of m ≡ some o.object_id) same refl

-- `on_message` goes on to its end.
abbrev pub finish : Backend → Backend
finish b = run_turns (on_message_goes ∷ on_message_goes ∷ on_message_goes ∷ []) b

-- `on_message` from its call to its return.
abbrev pub hear : JsonObject → ℕ → Backend → Backend
hear payload now b = finish (turn (message payload now) b)

abbrev entered : ℕ → Backend → Backend
entered id b = record b {
  person_state = set_inside id true b.person_state;
  callback = idle;
  alerts = record { person = id; entrance = true } ∷ b.alerts;
}

finish_inside :
    (id : ℕ) (b : Backend)
    → is_inside (b.person_state id) ≡ true
    → finish (record b { callback = registered id }) ≡ record b { callback = idle }
unfolding turn on_message_step
finish_inside id b e = rw e refl

finish_outside :
    (id : ℕ) (b : Backend)
    → is_inside (b.person_state id) ≡ false
    → finish (record b { callback = registered id }) ≡ entered id b
unfolding turn on_message_step
finish_outside id b e = rw e refl

message_registers :
    (payload : JsonObject) (id now : ℕ) (b : Backend)
    → b.callback ≡ idle
    → person_of payload ≡ some id
    → turn (message payload now) b ≡ record (register id now b) { callback = registered id }
unfolding turn register
message_registers payload id now b e f = rw (e, receive, f) refl

register_keeps :
    (id now : ℕ) (b : Backend)
    → is_inside ((register id now b).person_state id) ≡ is_inside (b.person_state id)
unfolding register
register_keeps id now b = update_keeps id id now b.person_state

-- What is known of one person after a message about it or another.
pub record Heard (p id : ℕ) (before after : Backend) : Type 0 where
  pub waits : after.callback ≡ idle
  pub tells : about p after.alerts ≡ (
      if (id == p) && not (is_inside (before.person_state p))
      then true ∷ about p before.alerts
      else about p before.alerts)
  pub puts : is_inside (after.person_state p) ≡ ((id == p) || is_inside (before.person_state p))

inside-Heard :
    (p id now : ℕ) (b : Backend)
    → is_inside (b.person_state id) ≡ true
    → Heard p id b (record (register id now b) { callback = idle })
unfolding register
inside-Heard p id now b e =
    let here = λ (h : (id == p) ≡ true).
      ap (λ q. is_inside (b.person_state q)) (sym ((==_iff id p).0 h)) ∙ e in
    record {
      waits = refl;
      tells = ground (arith, here);
      puts = update_keeps p id now b.person_state ∙ ground (arith, here);
    }

outside-Heard :
    (p id now : ℕ) (b : Backend)
    → is_inside (b.person_state id) ≡ false
    → Heard p id b (entered id (register id now b))
unfolding register
outside-Heard p id now b e =
    let here = λ (h : (id == p) ≡ true).
      ap (λ q. is_inside (b.person_state q)) (sym ((==_iff id p).0 h)) ∙ e in
    record {
      waits = refl;
      tells = ground (arith, here);
      puts =
          set_inside_sets p id true (update id now b.person_state)
          ∙ ground
              (arith, update_knows p id now b.person_state, update_keeps p id now b.person_state);
    }

-- If the perception service makes a message of an object and the backend hears it while it waits for
-- one, and `check_no_change` takes no step until `on_message` has ended, then `on_message` ends, and the
-- object's person is inside; one entrance is told, of just that person, unless it was inside before;
-- what is told of other persons, and whether they are inside, stays.
pub hear-Heard :
    (widen : ℕ → ℕ) (o : ObjInfo ℕ) (h : Heap) (payload : JsonObject) (p now : ℕ) (b : Backend)
    → set_mqtt_message widen o h ≡ some payload
    → b.callback ≡ idle
    → Heard p o.object_id b (hear payload now b)
hear-Heard widen o h payload p now b e waits =
    let id = o.object_id in
    let named = person_of-set_mqtt_message widen o h payload e in
    let c = register id now b in
    let heard = ap finish (message_registers payload id now b waits named) in
    elim (Bool-cases (is_inside (b.person_state id))) [
      | inl within ↦
          subst (Heard p id b) (sym (heard ∙ finish_inside id c (register_keeps id now b ∙ within)))
            (inside-Heard p id now b within)
      | inr without ↦
          subst (Heard p id b)
            (sym (heard ∙ finish_outside id c (register_keeps id now b ∙ without)))
            (outside-Heard p id now b without)
    ]
