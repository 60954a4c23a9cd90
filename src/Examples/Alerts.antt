-- ===== src/Examples/Alerts.antt =====
-- The backend at a person that is seen, is gone for five seconds, and is seen again.
use demo_colombia.Base.{◌≡◌, refl, true, false, List, [], ◌∷◌, arith}
use demo_colombia.Messages.{JsonObject, object_members, set_mqtt_message}
use demo_colombia.Backend.{
  Backend, Turn, message, on_message_goes, wakes, check_goes, turn, run_turns, no_persons, is_gone,
  is_inside, idle, person_of, asleep,
}
use demo_colombia.Backend.Alternation.{about, Alternates, was_inside}
use demo_colombia.Backend.Alternation.Turns.{alerts-Alternate}
use demo_colombia.Backend.Known.{gone-Swept}
use demo_colombia.Backend.Round.{checks}
use demo_colombia.Backend.Round.Swept.{Swept}
use demo_colombia.Backend.Heard.{hear, Heard, hear-Heard}
use demo_colombia.Examples.Objects.{seen, empty}

abbrev of_person : JsonObject
of_person = object_members (seen 0) []

-- The person is seen after 1 s, a round begins at 6 s, and a second message comes in the middle of it.
abbrev schedule : List Turn
schedule =
    message of_person 1000000000
    ∷ on_message_goes
    ∷ on_message_goes
    ∷ on_message_goes
    ∷ wakes 6000000000
    ∷ check_goes
    ∷ message of_person 6000000001
    ∷ check_goes
    ∷ on_message_goes
    ∷ check_goes
    ∷ check_goes
    ∷ []

abbrev once_seen : Backend
once_seen = hear of_person 1000000000 no_persons

alerts-Alternate_example :
    let b = run_turns schedule no_persons in
    Alternates (about 3 b.alerts)
    × (b.callback ≡ idle
        → b.checker ≡ asleep
        → was_inside (about 3 b.alerts) ≡ is_inside (b.person_state 3))
alerts-Alternate_example = alerts-Alternate 3 schedule

-- Both alerts were told.
two_alerts : about 3 (run_turns schedule no_persons).alerts ≡ false ∷ true ∷ []
unfolding turn person_of object_members
two_alerts = refl

gone-Swept_example :
    let b' = checks 4 (turn (wakes 6000000000) once_seen) in
    (b'.checker ≡ asleep)
    × Swept 3 true (is_gone 6000000000 (once_seen.person_state 3)) once_seen b'
unfolding turn person_of object_members
gone-Swept_example =
    gone-Swept 3 6000000000 4
      (message of_person 1000000000 ∷ on_message_goes ∷ on_message_goes ∷ on_message_goes ∷ []) refl
      (omega arith)

hear-Heard_example : Heard 3 3 no_persons (hear of_person 1000000000 no_persons)
unfolding set_mqtt_message
hear-Heard_example = hear-Heard (λ n. n) (seen 0) empty of_person 3 1000000000 no_persons refl refl
