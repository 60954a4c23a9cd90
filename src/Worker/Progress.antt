-- ===== src/Worker/Progress.antt =====
-- With a broker that accepts, a running thread empties the queue.
use demo_colombia.Base.{
  ℕ, ◌≡◌, refl, sym, ap, ◌∙◌, subst, true, List, [], ◌∷◌, ◌++◌, append-nil, append_assoc,
}
use demo_colombia.Broker.{MosqErr, success, after_publish}
use demo_colombia.Broker.Retries.{send_mqtt_message_sent}
use demo_colombia.Worker.{Worker, top, serving, look, serve, Step, enters, serves, Run, here, next}

module _ {A : Type 0} (answers : A → ℕ → MosqErr)
    (accepts : (x : A) (n : ℕ) → answers x n ≡ success) where
  abbrev popped : Worker A → A → List A → Worker A
  popped w x q = record w {
    queue = q;
    position = top;
    client = after_publish w.client;
    delivered = w.delivered ++ x ∷ [];
  }

  serve_accepts : (w : Worker A) (x : A) (q : List A) → serve answers w x q ≡ popped w x q
  unfolding serve
  serve_accepts w x q =
      rw (send_mqtt_message_sent (answers x) w.client (accepts x w.client.publishes))

  Run-trans : {u v w : Worker A} → Run answers u [] v → Run answers v [] w → Run answers u [] w
  Run-trans r here = r
  Run-trans r (next {xs = []} {ys = []} s t e) = next (Run-trans r s) t refl
  Run-trans r (next {xs = []} {ys = y ∷ ys} s t e) = cc
  Run-trans r (next {xs = x ∷ xs} s t e) = cc

  -- A running thread at the top of its loop, with the queue `q`.
  abbrev pub Drained : List A → Worker A → Type 0
  Drained q w =
      (v : Worker A) × Run answers w [] v
      × (v.queue ≡ [])
      × (v.delivered ≡ w.delivered ++ q)
      × (v.position ≡ top)

  serve_once :
      (w : Worker A) (x : A) (q : List A)
      → w.running ≡ true
      → w.position ≡ top
      → w.queue ≡ x ∷ q
      → Run answers w [] (popped w x q)
  unfolding look
  serve_once w x q on at e =
      let looked : Run answers w [] (record w { position = serving }) =
        next here
          (subst (λ p. Step answers w [] (record w { position = p })) (ap look e) (enters at on))
          refl in
      subst (Run answers w []) (serve_accepts (record w { position = serving }) x q)
        (next looked (serves x q refl e) refl)

  -- If the broker accepts every message, a running thread at the top of its loop can run on until the
  -- queue is empty, and has then delivered its objects in order.
  pub Run-Drained :
      (q : List A) (w : Worker A) → w.running ≡ true → w.position ≡ top → w.queue ≡ q → Drained q w
  Run-Drained [] w on at e = (w, here, e, sym (append-nil w.delivered), at)
  Run-Drained (x ∷ q) w on at e =
      let (v, r, none_left, d, there) = Run-Drained q (popped w x q) on refl refl in
      (
        v,
        Run-trans (serve_once w x q on at e) r,
        none_left,
        d ∙ append_assoc w.delivered (x ∷ []) q,
        there,
      )
