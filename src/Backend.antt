-- ===== src/Backend.antt =====
-- backend/main.py: the service that turns messages into alerts about persons. Two threads share the
-- dictionary `person_state`: the MQTT client's thread runs `on_message`, the other `check_no_change`.
-- Each step below is one access of a thread to what they share, or one alert; the threads take turns
-- in any order. Times are in nanoseconds, and the clock need not advance. `alerts` holds the alerts that
-- `GestorAlertas` was asked to send: it catches what goes wrong, so a caller goes on in any case.
pub mod Alternation
pub mod Round
pub mod Heard
pub mod Known
use demo_colombia.Base.Int.{pos}
use demo_colombia.Text.{Bytes, codes, same_bytes}
use demo_colombia.Messages.{JsonObject, json_int}
use demo_colombia.Base.{
  is_some, ℕ, ◌+◌, ◌==◌, ltb, Bool, true, false, ◌&&◌, Option, none, some, List, [], ◌∷◌, ◌++◌,
  if◌then◌else◌,
}

abbrev pub inactivity_threshold : ℕ
inactivity_threshold = 4000000000

-- `person_state[person_id]`.
pub record Presence : Type 0 where
  pub last_update : ℕ
  pub inside_roi : Bool

pub record Alert : Type 0 where
  pub person : ℕ
  -- `altertar_evento_entrada`, or `altertar_evento_salida`
  pub entrance : Bool

-- Where `on_message` is; after an exception it is called no more.
pub data Callback : Type 0 where
  idle raised : Callback
  registered alerting alerted : ℕ → Callback

-- Where `check_no_change` is, with `now` and the persons of the round that are left.
pub data Checker : Type 0 where
  asleep : Checker
  looking : ℕ → List ℕ → Checker
  leaving left : ℕ → ℕ → List ℕ → Checker

pub record Backend : Type 0 where
  -- the keys of `person_state` in the order in which they were inserted
  pub persons : List ℕ
  pub person_state : ℕ → Option Presence
  pub callback : Callback
  pub checker : Checker
  -- newest first
  pub alerts : List Alert

abbrev pub put : ℕ → Presence → (ℕ → Option Presence) → ℕ → Option Presence
put id s old q = if id == q then some s else old q

-- `state["inside_roi"]`, for a person that is there.
abbrev pub is_inside : Option Presence → Bool
is_inside none = false
is_inside (some s) = s.inside_roi

-- The update, or the registration, at the start of `on_message`.
unfoldable pub update : ℕ → ℕ → (ℕ → Option Presence) → ℕ → Option Presence
update id now states = elim (states id) [
  | none ↦ put id (record { last_update = now; inside_roi = false }) states
  | some s ↦ put id (record s { last_update = now }) states
]

unfoldable pub register : ℕ → ℕ → Backend → Backend
unfolding update
register id now b = record b {
  persons = if is_some (b.person_state id) then b.persons else b.persons ++ id ∷ [];
  person_state = update id now b.person_state;
  callback = registered id;
}

-- `person_state[person_id]["inside_roi"] = ...`, where the person is there.
unfoldable pub set_inside : ℕ → Bool → (ℕ → Option Presence) → ℕ → Option Presence
set_inside id inside states = elim (states id) [
  | none ↦ states
  | some s ↦ put id (record s { inside_roi = inside }) states
]

-- The next step of `on_message`, after the registration.
unfoldable pub on_message_step : Backend → Backend
unfolding set_inside
on_message_step b = elim b.callback [
  | idle ↦ b
  | raised ↦ b
  | registered id ↦
      if is_inside (b.person_state id)
      then record b { callback = idle }
      else record b { callback = alerting id }
  | alerting id ↦ record b {
    callback = alerted id;
    alerts = record { person = id; entrance = true } ∷ b.alerts;
  }
  | alerted id ↦ record b { person_state = set_inside id true b.person_state; callback = idle }
]

-- `state["inside_roi"] and now - state["last_update"] > INACTIVITY_THRESHOLD`.
unfoldable pub is_gone : ℕ → Option Presence → Bool
is_gone now none = false
is_gone now (some s) = s.inside_roi && ltb (s.last_update + inactivity_threshold) now

-- The next step of `check_no_change` in a round.
unfoldable pub check_step : Backend → Backend
unfolding is_gone set_inside
check_step b = elim b.checker [
  | asleep ↦ b
  | looking now [] ↦ record b { checker = asleep }
  | looking now (id ∷ ids) ↦
      if is_gone now (b.person_state id)
      then record b { checker = leaving now id ids }
      else record b { checker = looking now ids }
  | leaving now id ids ↦ record b {
    checker = left now id ids;
    alerts = record { person = id; entrance = false } ∷ b.alerts;
  }
  | left now id ids ↦ record b {
    person_state = set_inside id false b.person_state;
    checker = looking now ids;
  }
]

-- `payload["object_id"]`: the person, as the natural number that the perception service sends. Without
-- the member there is an exception; a member of another type is not modelled, and taken for that.
unfoldable pub person_of : JsonObject → Option ℕ
person_of [] = none
person_of ((key, value) ∷ members) =
    if same_bytes key (codes "object_id")
    then elim value [ json_int (pos id) ↦ some id | _ ↦ none ]
    else person_of members

-- `on_message` up to the test of `inside_roi`.
unfoldable pub receive : JsonObject → ℕ → Backend → Backend
unfolding register
receive payload now b = elim (person_of payload) [
  | none ↦ record b { callback = raised }
  | some id ↦ register id now b
]

-- What may happen next. A message waits while `on_message` runs, and a round begins when the last one
-- has ended.
pub data Turn : Type 0 where
  message : JsonObject → ℕ → Turn
  on_message_goes : Turn
  wakes : ℕ → Turn
  check_goes : Turn

unfoldable pub turn : Turn → Backend → Backend
unfolding receive on_message_step check_step
turn (message payload now) b = elim b.callback [ idle ↦ receive payload now b | _ ↦ b ]
turn on_message_goes b = on_message_step b
turn (wakes now) b = elim b.checker [
  | asleep ↦ record b { checker = looking now b.persons }
  | _ ↦ b
]
turn check_goes b = check_step b

abbrev pub run_turns : List Turn → Backend → Backend
run_turns [] b = b
run_turns (t ∷ ts) b = run_turns ts (turn t b)

abbrev pub no_persons : Backend
no_persons = record {
  persons = [];
  person_state = λ q. none;
  callback = idle;
  checker = asleep;
  alerts = [];
}
