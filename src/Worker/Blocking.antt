-- ===== src/Worker/Blocking.antt =====
-- Where the thread makes no progress.
use demo_colombia.Base.{
  ℕ, ◌≡◌, refl, sym, ap, subst, append-nil, append_assoc, ◌∙◌, List, [], ◌∷◌, ◌++◌, arith,
}
use demo_colombia.Broker.{MosqErr, verdict, gives_up, after_publish}
use demo_colombia.Broker.Retries.{send_mqtt_message_gives_up}
use demo_colombia.Worker.{
  Worker, top, waiting, look, serve, Step, pushes, enters, leaves, wakes, serves, stops, Run, here,
  next,
}

-- The thread sleeps on an empty queue.
pub record IsAsleep {A : Type 0} (w : Worker A) : Type 0 where
  pub at_wait : w.position ≡ waiting
  pub no_object : w.queue ≡ []

Step-IsAsleep :
    {A : Type 0} (answers : A → ℕ → MosqErr) {w v : Worker A} {ys : List A}
    → Step answers w ys v
    → ys ≡ []
    → IsAsleep w
    → IsAsleep v
unfolding look
Step-IsAsleep answers (pushes x free) e a = ground arith
Step-IsAsleep answers (enters at on) e a = ground arith
Step-IsAsleep answers (leaves at off) e a = ground arith
Step-IsAsleep answers (wakes at) e a = ground arith
Step-IsAsleep answers (serves x q at f) e a = ground arith
Step-IsAsleep answers stops e a = record { at_wait = a.at_wait; no_object = a.no_object }

append-eq-nil {ℓ} : {A : Type ℓ} (xs ys : List A) → xs ++ ys ≡ [] → (xs ≡ []) × (ys ≡ [])
append-eq-nil [] ys e = (refl, e)
append-eq-nil (x ∷ xs) ys e = cc

-- A thread that waits on an empty queue never finishes unless another object is pushed, though `main`
-- has cleared `app_is_running` and wakes it: the inner loop does not look at the flag.
pub Run-IsAsleep :
    {A : Type 0} (answers : A → ℕ → MosqErr) {w v : Worker A} {xs : List A}
    → Run answers w xs v
    → xs ≡ []
    → IsAsleep w
    → IsAsleep v
Run-IsAsleep answers here e a = a
Run-IsAsleep answers (next {xs} {ys} r s f) e a =
    let (none_before, none_now) = append-eq-nil xs ys (sym f ∙ e) in
    Step-IsAsleep answers s none_now (Run-IsAsleep answers r none_before a)

heads : {A : Type 0} {x y : A} {q r : List A} → y ∷ r ≡ x ∷ q → y ≡ x
heads e = cc

module _ {A : Type 0} (answers : A → ℕ → MosqErr) (x : A)
    (refused : (n : ℕ) → verdict (answers x n) ≡ gives_up) where
  -- The object is at the front, and nothing has been delivered since.
  record IsBlocked (q d : List A) (w : Worker A) : Type 0 where
    front : w.queue ≡ x ∷ q
    same : w.delivered ≡ d

  serve_refused :
      (w : Worker A) (r : List A)
      → serve answers w x r ≡ record w { position = top; client = after_publish w.client }
  unfolding serve
  serve_refused w r =
      rw (send_mqtt_message_gives_up (answers x) w.client (refused w.client.publishes))

  serve-IsBlocked :
      (w : Worker A) (y : A) (r q d : List A)
      → y ≡ x
      → IsBlocked q d w
      → IsBlocked (q ++ []) d (serve answers w y r)
  serve-IsBlocked w y r q d e b =
      subst (λ z. IsBlocked (q ++ []) d (serve answers w z r)) (sym e)
        (subst (IsBlocked (q ++ []) d) (sym (serve_refused w r))
          (record { front = b.front ∙ ap (◌∷◌ x) (sym (append-nil q)); same = b.same }))

  Step-IsBlocked :
      {w v : Worker A} {ys : List A} (q d : List A)
      → Step answers w ys v
      → IsBlocked q d w
      → IsBlocked (q ++ ys) d v
  Step-IsBlocked q d (pushes y free) b = record {
    front = ap (λ l. l ++ y ∷ []) b.front;
    same = b.same;
  }
  Step-IsBlocked q d (enters at on) b = record {
    front = b.front ∙ ap (◌∷◌ x) (sym (append-nil q));
    same = b.same;
  }
  Step-IsBlocked q d (leaves at off) b = record {
    front = b.front ∙ ap (◌∷◌ x) (sym (append-nil q));
    same = b.same;
  }
  Step-IsBlocked q d (wakes at) b = record {
    front = b.front ∙ ap (◌∷◌ x) (sym (append-nil q));
    same = b.same;
  }
  Step-IsBlocked {w} q d (serves y r at f) b = serve-IsBlocked w y r q d (heads (sym f ∙ b.front)) b
  Step-IsBlocked q d stops b = record {
    front = b.front ∙ ap (◌∷◌ x) (sym (append-nil q));
    same = b.same;
  }

  Run-IsBlocked :
      {w v : Worker A} {xs : List A} (q d : List A)
      → Run answers w xs v
      → IsBlocked q d w
      → IsBlocked (q ++ xs) d v
  Run-IsBlocked q d here b = record {
    front = b.front ∙ ap (◌∷◌ x) (sym (append-nil q));
    same = b.same;
  }
  Run-IsBlocked {v} q d (next {xs} {ys} r s e) b =
      subst (λ l. IsBlocked l d v) (append_assoc q xs ys ∙ ap (◌++◌ q) (sym e))
        (Step-IsBlocked (q ++ xs) d s (Run-IsBlocked q d r b))

  -- Whatever happens: an object at the front of the queue that the broker refuses for good, as it does
  -- one whose payload is too large, stays there, and nothing behind it is ever delivered.
  pub Run-blocked :
      {w v : Worker A} {xs : List A} (q : List A)
      → Run answers w xs v
      → w.queue ≡ x ∷ q
      → (v.queue ≡ x ∷ (q ++ xs)) × (v.delivered ≡ w.delivered)
  Run-blocked {w} q r e =
      let b = Run-IsBlocked q w.delivered r (record { front = e; same = refl }) in (b.front, b.same)
