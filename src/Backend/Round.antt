-- ===== src/Backend/Round.antt =====
-- A round of `check_no_change` that no message interrupts.
pub mod Swept
use demo_colombia.Base.{
  ==_iff, ℕ, suc, zero, ◌+◌, ◌*◌, ◌≤◌, ◌≡◌, refl, sym, ap, subst, ◌∙◌, inl, inr, ◌==◌, Bool-cases,
  Bool, true, false, not, ◌||◌, ◌&&◌, List, [], ◌∷◌, length, arith, if◌then◌else◌,
}
use demo_colombia.Backend.{
  Presence, Option, is_some, Backend, wakes, check_step, turn, is_gone, is_inside, set_inside,
  asleep, looking,
}
use demo_colombia.Backend.Alternation.{about, set_inside_sets}

-- The checker's thread goes on for a number of steps.
abbrev pub checks : ℕ → Backend → Backend
checks zero b = b
checks (suc n) b = checks n (check_step b)

-- What a round does to one person, at once.
unfoldable pub sweep_one : ℕ → ℕ → Backend → Backend
sweep_one now id b =
    if is_gone now (b.person_state id)
    then record b {
      person_state = set_inside id false b.person_state;
      alerts = record { person = id; entrance = false } ∷ b.alerts;
    }
    else b

abbrev pub sweep : ℕ → List ℕ → Backend → Backend
sweep now [] b = b
sweep now (id ∷ ids) b = sweep now ids (sweep_one now id b)

asleep_stays :
    (n : ℕ) (b : Backend) → checks n (record b { checker = asleep }) ≡ record b { checker = asleep }
unfolding check_step
asleep_stays zero b = refl
asleep_stays (suc n) b = asleep_stays n b

-- The person leaves.
abbrev pub leaves : ℕ → Backend → Backend
leaves id b = record b {
  person_state = set_inside id false b.person_state;
  alerts = record { person = id; entrance = false } ∷ b.alerts;
}

pub sweep_one_gone :
    (now id : ℕ) (b : Backend)
    → is_gone now (b.person_state id) ≡ true
    → sweep_one now id b ≡ leaves id b
unfolding sweep_one
sweep_one_gone now id b gone = rw gone refl

pub sweep_one_stays :
    (now id : ℕ) (b : Backend) → is_gone now (b.person_state id) ≡ false → sweep_one now id b ≡ b
unfolding sweep_one
sweep_one_stays now id b stays = rw stays refl

pub checks-sweep :
    (now : ℕ) (ids : List ℕ) (n : ℕ) (b : Backend)
    → 3 * length ids + 1 ≤ n
    → checks n (record b { checker = looking now ids })
      ≡ record (sweep now ids b) { checker = asleep }
unfolding check_step
checks-sweep now [] zero b le = absurd (omega arith)
checks-sweep now [] (suc n) b le = asleep_stays n b
checks-sweep now (id ∷ ids) zero b le = absurd (omega arith)
checks-sweep now (id ∷ ids) (suc zero) b le = absurd (omega arith)
checks-sweep now (id ∷ ids) (suc (suc zero)) b le = absurd (omega arith)
checks-sweep now (id ∷ ids) (suc (suc (suc n))) b le =
    elim (Bool-cases (is_gone now (b.person_state id))) [
      | inl gone ↦
          subst ends_in (sym (sweep_one_gone now id b gone))
            (rw gone (checks-sweep now ids n (leaves id b) (omega arith)))
      | inr stays ↦
          subst ends_in (sym (sweep_one_stays now id b stays))
            (rw stays (checks-sweep now ids (suc (suc n)) b (omega arith)))
    ]
  where
    ends_in : Backend → Type 0
    ends_in c =
        checks (suc (suc (suc n))) (record b { checker = looking now (id ∷ ids) })
        ≡ record (sweep now ids c) { checker = asleep }
