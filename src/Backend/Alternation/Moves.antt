-- ===== src/Backend/Alternation/Moves.antt =====
-- Each move of a thread keeps the agreement of what is known of a person with the alerts about it.
use demo_colombia.Base.{
  refl, ◌∙◌, ℕ, ◌≡◌, ◌==◌, Bool, true, false, not, ◌&&◌, ◌||◌, List, [], ◌∷◌, if◌then◌else◌, arith,
}
use demo_colombia.Backend.{
  raised, asleep, looking, Callback, Checker, idle, registered, alerting, alerted, leaving, left,
}
use demo_colombia.Backend.Alternation.{AgreesAt, announced, enters, exits, retired}

retired-exits : (p : ℕ) (k : Checker) → retired p k ≡ true → exits p k ≡ true
retired-exits p asleep e = e
retired-exits p (looking now ids) e = e
retired-exits p (leaving now q ids) e = absurd cc
retired-exits p (left now q ids) e = e

announced-enters : (p : ℕ) (c : Callback) → announced p c ≡ true → enters p c ≡ true
announced-enters p idle e = e
announced-enters p raised e = e
announced-enters p (registered q) e = e
announced-enters p (alerting q) e = absurd cc
announced-enters p (alerted q) e = e

-- What is told of a person in and after its exit.
after_exit :
    (within known it told : Bool)
    → (within ≡ true → known ≡ true)
    → (it ≡ true → within ≡ true)
    → (told ≡ true → within ≡ false)
    → ((within || told) && not it) ≡ (((if it && known then false else within) || told) && true)
after_exit false known false told e i o = refl
after_exit false known true told e i o = absurd (let h = i refl in cc)
after_exit true known it true e i o = absurd (let h = o refl in cc)
after_exit true true false false e i o = refl
after_exit true true true false e i o = refl
after_exit true false it false e i o = absurd (let h = e refl in cc)

false_before : (x within : Bool) → within ≡ false → (if x then false else within) ≡ false
false_before true within e = refl
false_before false within e = e

module _ (p : ℕ) (es : List Bool) (within known : Bool) where
  abbrev At : Callback → Checker → Type 0
  At = AgreesAt p es within known

  pub registers :
      (id : ℕ) (k : Checker)
      → At idle k
      → AgreesAt p es within ((id == p) || known) (registered id) k
  registers id k v =
      let t = v.told in
      record {
        alternates = v.alternates;
        told = ground arith;
        there = ground arith;
        outside = ground arith;
        inside = v.inside;
      }

  pub raises : (k : Checker) → At idle k → At raised k
  raises k v = record {
    alternates = v.alternates;
    told = v.told;
    there = v.there;
    outside = v.outside;
    inside = v.inside;
  }

  pub finds_inside : (id : ℕ) (k : Checker) → At (registered id) k → At idle k
  finds_inside id k v =
      let t = v.told in
      record {
        alternates = v.alternates;
        told = ground arith;
        there = ground arith;
        outside = ground arith;
        inside = v.inside;
      }

  pub finds_outside :
      (id : ℕ) (k : Checker)
      → ((id == p) ≡ true → within ≡ false)
      → At (registered id) k
      → At (alerting id) k
  finds_outside id k e v =
      let t = v.told in
      record {
        alternates = v.alternates;
        told = ground arith;
        there = v.there;
        outside = e;
        inside = v.inside;
      }

  pub tells_entrance :
      (id : ℕ) (k : Checker)
      → At (alerting id) k
      → AgreesAt p (if id == p then true ∷ es else es) within known (alerted id) k
  tells_entrance id k v =
      let t = v.told in
      let o = v.outside in
      let a = v.alternates in
      let i = v.inside in
      let r = retired-exits p k in
      record {
        alternates = ground arith;
        told = ground arith;
        there = v.there;
        outside = o;
        inside = i;
      }

  pub notes_entrance :
      (id : ℕ) (k : Checker)
      → At (alerted id) k
      → AgreesAt p es (if (id == p) && known then true else within) known idle k
  notes_entrance id k v =
      let t = v.told in
      let h = v.there in
      let i = v.inside in
      record {
        alternates = v.alternates;
        told = ground arith;
        there = ground arith;
        outside = ground arith;
        inside = ground arith;
      }

  pub begins : (now : ℕ) (ids : List ℕ) (c : Callback) → At c asleep → At c (looking now ids)
  begins now ids c v = record {
    alternates = v.alternates;
    told = v.told;
    there = v.there;
    outside = v.outside;
    inside = v.inside;
  }

  pub ends : (now : ℕ) (c : Callback) → At c (looking now []) → At c asleep
  ends now c v = record {
    alternates = v.alternates;
    told = v.told;
    there = v.there;
    outside = v.outside;
    inside = v.inside;
  }

  pub passes :
      (now id : ℕ) (ids : List ℕ) (c : Callback)
      → At c (looking now (id ∷ ids))
      → At c (looking now ids)
  passes now id ids c v = record {
    alternates = v.alternates;
    told = v.told;
    there = v.there;
    outside = v.outside;
    inside = v.inside;
  }

  pub finds_gone :
      (now id : ℕ) (ids : List ℕ) (c : Callback)
      → ((id == p) ≡ true → within ≡ true)
      → At c (looking now (id ∷ ids))
      → At c (leaving now id ids)
  finds_gone now id ids c e v = record {
    alternates = v.alternates;
    told = v.told;
    there = v.there;
    outside = v.outside;
    inside = e;
  }

  pub tells_exit :
      (now id : ℕ) (ids : List ℕ) (c : Callback)
      → At c (leaving now id ids)
      → AgreesAt p (if id == p then false ∷ es else es) within known c (left now id ids)
  tells_exit now id ids c v =
      let t = v.told in
      let a = v.alternates in
      let i = v.inside in
      record {
        alternates = ground arith;
        told = ground arith;
        there = v.there;
        outside = v.outside;
        inside = i;
      }

  pub notes_exit :
      (now id : ℕ) (ids : List ℕ) (c : Callback)
      → (within ≡ true → known ≡ true)
      → At c (left now id ids)
      → AgreesAt p es (if (id == p) && known then false else within) known c (looking now ids)
  notes_exit now id ids c e v = record {
    alternates = v.alternates;
    told =
        v.told
        ∙ after_exit within known (id == p) (announced p c) e v.inside
            (λ a. v.outside (announced-enters p c a));
    there = v.there;
    outside = λ a. false_before ((id == p) && known) within (v.outside a);
    inside = λ a. absurd cc;
  }
