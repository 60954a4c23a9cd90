-- ===== src/Worker/Finish.antt =====
-- When the thread can still finish after `main` has cleared `app_is_running`.
use demo_colombia.Base.{
  ℕ, ◌≡◌, ◌≢◌, ◌↔◌, refl, sym, ap, subst, ◌∙◌, inl, inr, false, Bool-cases, List, [], ◌∷◌,
}
use demo_colombia.Broker.{MosqErr, send_mqtt_message}
use demo_colombia.Worker.{
  Worker, top, waiting, serving, finished, look, serve, Step, leaves, wakes, serves, Run, here,
  next,
}
use demo_colombia.Worker.Blocking.{Run-IsAsleep}

module _ {A : Type 0} (answers : A → ℕ → MosqErr) where
  serve-top :
      (w : Worker A) (x : A) (q : List A)
      → ((serve answers w x q).position ≡ top) × ((serve answers w x q).running ≡ w.running)
  unfolding serve
  serve-top w x q = elim (Bool-cases (send_mqtt_message (answers x) w.client).0) [
    | inl sent ↦ rw sent (refl, refl)
    | inr kept ↦ rw kept (refl, refl)
  ]

  -- The thread gets to its end without another object being pushed.
  abbrev pub CanFinish : Worker A → Type 0
  CanFinish w = (v : Worker A) × Run answers w [] v × (v.position ≡ finished)

  queued-CanFinish :
      (w : Worker A) (x : A) (q : List A)
      → w.position ≡ waiting
      → w.running ≡ false
      → w.queue ≡ x ∷ q
      → CanFinish w
  unfolding look
  queued-CanFinish w x q at off e =
      let woken : Worker A = record w { position = serving } in
      let looked : Run answers w [] woken =
        next here
          (subst (λ p. Step answers w [] (record w { position = p })) (ap look e) (wakes at))
          refl in
      let served = next looked (serves x q refl e) refl in
      let (at_top, same) = serve-top woken x q in
      (
        record (serve answers woken x q) { position = finished },
        next served (leaves at_top (same ∙ off)) refl,
        refl,
      )

  -- A thread that waits when the flag is cleared can finish, whatever the broker answers, exactly if the
  -- queue is not empty; otherwise it waits until another object is pushed.
  pub CanFinish-iff :
      (w : Worker A) → w.position ≡ waiting → w.running ≡ false → CanFinish w ↔ (w.queue ≢ [])
  CanFinish-iff w at off = (finish_needs, queue_suffices w.queue refl)
    where
      finish_needs : CanFinish w → w.queue ≢ []
      finish_needs (v, r, e) none_left = cc (
          sym e
          ∙ (Run-IsAsleep answers r refl (record { at_wait = at; no_object = none_left })).at_wait)

      queue_suffices : (q : List A) → w.queue ≡ q → w.queue ≢ [] → CanFinish w
      queue_suffices [] e n = absurd (n e)
      queue_suffices (x ∷ q) e n = queued-CanFinish w x q at off e
