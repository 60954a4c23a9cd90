-- ===== src/Frames/Storage.antt =====
-- What the three tasks do with the file system, OpenCV and Redis.
use demo_colombia.Base.{
  ℕ, zero, suc, ◌+◌, ◌≤◌, ◌<◌, ◌≡◌, refl, sym, ap, ◌⊎◌, inl, inr, true, false, [], ◌∷◌, Bool-cases,
  arith,
}
use native.Mathlib.Decide.{ℕ_discrete}
use demo_colombia.Gst.Ensures.{Returns}
use demo_colombia.Text.{Bytes}
use demo_colombia.Gst.{
  Env, History, returns, throws, Call, Reply, flag, create_directories, remove_all,
}
use demo_colombia.Frames.{source_dir, create_from, prepare_output_directory}

-- The call stands in the history with that reply.
abbrev pub Logged : Call × Reply → History → Type 0
Logged e [] = ⊥
Logged e (f ∷ h) = (e ≡ f) ⊎ Logged e h

module _ (dir : Bytes) (env : Env) where
  abbrev making : ℕ → Call
  making i = create_directories (source_dir dir i)

  create_from_made :
      (rounds i : ℕ) (h : History)
      → env.accepts h (making i) ≡ true
      → create_from dir (suc rounds) i env h
        ≡ create_from dir rounds (suc i) env ((making i, flag true) ∷ h)
  unfolding create_from
  create_from_made rounds i h e = ground arith

  create_from_failed :
      (rounds i : ℕ) (h : History)
      → env.accepts h (making i) ≡ false
      → create_from dir (suc rounds) i env h ≡ (throws, (making i, flag false) ∷ h)
  unfolding create_from
  create_from_failed rounds i h e = ground arith

  create_from_none : (i : ℕ) (h : History) → create_from dir 0 i env h ≡ (returns true, h)
  unfolding create_from
  create_from_none i h = refl

  create_from-Logged :
      (rounds i : ℕ) (h : History) (e : Call × Reply)
      → Logged e h
      → Logged e (create_from dir rounds i env h).1
  create_from-Logged zero i h e l = rw (create_from_none i h) l
  create_from-Logged (suc rounds) i h e l = elim (Bool-cases (env.accepts h (making i))) [
    | inl made ↦
        rw (create_from_made rounds i h made) (create_from-Logged rounds (suc i) _ e (inr l))
    | inr failed ↦ rw (create_from_failed rounds i h failed) (inr l)
  ]

  create_from_makes :
      (rounds i j : ℕ) (h : History)
      → (create_from dir rounds i env h).0 ≡ returns true
      → i ≤ j
      → j < i + rounds
      → Logged (making j, flag true) (create_from dir rounds i env h).1
  create_from_makes zero i j h e le lt = absurd (omega arith)
  create_from_makes (suc rounds) i j h e le lt = elim (Bool-cases (env.accepts h (making i))) [
    | inl made ↦ rw (create_from_made rounds i h made) (elim (ℕ_discrete i j) [
      | yes same ↦
          create_from-Logged rounds (suc i) _ (making j, flag true)
            (inl (ap (λ k. (making k, flag true)) (sym same)))
      | no other ↦
          create_from_makes rounds (suc i) j _ (rw (create_from_made rounds i h made) at e)
            (omega arith) (omega arith)
    ])
    | inr failed ↦ cc (rw (create_from_failed rounds i h failed) at e)
  ]

  create_from_cases :
      (rounds i : ℕ) (h : History)
      → ((create_from dir rounds i env h).0 ≡ returns true)
        ⊎ ((create_from dir rounds i env h).0 ≡ throws)
  create_from_cases zero i h = inl (ap (λ r. r.0) (create_from_none i h))
  create_from_cases (suc rounds) i h = elim (Bool-cases (env.accepts h (making i))) [
    | inl made ↦ rw (create_from_made rounds i h made) (create_from_cases rounds (suc i) _)
    | inr failed ↦ rw (create_from_failed rounds i h failed) (inr refl)
  ]

  -- The three ways in which the preparation ends.
  prepare_refused :
      (n : ℕ) (h : History)
      → env.accepts h (remove_all dir) ≡ false
      → (prepare_output_directory dir n env h).0 ≡ returns false
  unfolding prepare_output_directory
  prepare_refused n h e = ground arith

  abbrev removed : History → History
  removed h = (remove_all dir, flag true) ∷ h

  prepare_failed :
      (n : ℕ) (h : History)
      → env.accepts h (remove_all dir) ≡ true
      → (create_from dir n 0 env (removed h)).0 ≡ throws
      → (prepare_output_directory dir n env h).0 ≡ returns false
  unfolding prepare_output_directory
  prepare_failed n h e f = ground arith

  prepare_done :
      (n : ℕ) (h : History)
      → env.accepts h (remove_all dir) ≡ true
      → (create_from dir n 0 env (removed h)).0 ≡ returns true
      → prepare_output_directory dir n env h
        ≡ (returns true, (create_from dir n 0 env (removed h)).1)
  unfolding prepare_output_directory
  prepare_done n h e f = ground arith

  -- `prepareOutputDirectory` always reports, and where it reports success the directory of every
  -- source was made.
  pub prepare_output_directory_makes :
      (n : ℕ) (h : History)
      → Returns
          (λ ok.
            ok ≡ true
            → (j : ℕ) → j < n
            → Logged (making j, flag true) (prepare_output_directory dir n env h).1)
          (prepare_output_directory dir n env h).0
  prepare_output_directory_makes n h = elim (Bool-cases (env.accepts h (remove_all dir))) [
    | inl gone ↦ elim (create_from_cases n 0 (removed h)) [
      | inl all ↦
          rw (prepare_done n h gone all)
            (λ _ j lt. create_from_makes n 0 j (removed h) all (omega arith) (omega arith))
      | inr some_failed ↦ rw (prepare_failed n h gone some_failed) (λ e. cc)
    ]
    | inr kept ↦ rw (prepare_refused n h kept) (λ e. cc)
  ]
