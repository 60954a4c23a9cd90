-- ===== src/Worker/Order.antt =====
-- No object is lost, sent twice or overtaken.
use demo_colombia.Base.{
  ℕ, ◌≡◌, sym, ap, ◌∙◌, List, [], ◌∷◌, ◌++◌, append-nil, append_assoc, inl, inr, Bool-cases,
}
use demo_colombia.Broker.{MosqErr, send_mqtt_message}
use demo_colombia.Worker.{
  Worker, serve, Step, pushes, enters, leaves, wakes, serves, stops, Run, here, next,
}

-- What was delivered, then what is still queued.
abbrev pub accepted : {A : Type 0} → Worker A → List A
accepted w = w.delivered ++ w.queue

accepted-serve :
    {A : Type 0} (answers : A → ℕ → MosqErr) (w : Worker A) (x : A) (q : List A)
    → w.queue ≡ x ∷ q
    → accepted (serve answers w x q) ≡ accepted w
unfolding serve
accepted-serve answers w x q e = elim (Bool-cases (send_mqtt_message (answers x) w.client).0) [
  | inl sent ↦ rw sent (append_assoc w.delivered (x ∷ []) q ∙ ap (◌++◌ w.delivered) (sym e))
  | inr kept ↦ rw kept
]

accepted-Step :
    {A : Type 0} (answers : A → ℕ → MosqErr) {w v : Worker A} {ys : List A}
    → Step answers w ys v
    → accepted v ≡ accepted w ++ ys
accepted-Step answers {w} (pushes x free) = sym (append_assoc w.delivered w.queue (x ∷ []))
accepted-Step answers {w} (enters at on) = sym (append-nil (accepted w))
accepted-Step answers {w} (leaves at off) = sym (append-nil (accepted w))
accepted-Step answers {w} (wakes at) = sym (append-nil (accepted w))
accepted-Step answers {w} (serves x q at e) =
    accepted-serve answers w x q e ∙ sym (append-nil (accepted w))
accepted-Step answers {w} stops = sym (append-nil (accepted w))

-- In every interleaving of the thread, the probe and `main`, whatever the broker answers: the objects
-- delivered, followed by those queued, are those of the start followed by those pushed since, in order.
pub accepted-Run :
    {A : Type 0} (answers : A → ℕ → MosqErr) {w v : Worker A} {xs : List A}
    → Run answers w xs v
    → accepted v ≡ accepted w ++ xs
accepted-Run answers {w} here = sym (append-nil (accepted w))
accepted-Run answers {w} (next {xs} {ys} {zs} r s e) =
    accepted-Step answers s
    ∙ ap (λ l. l ++ ys) (accepted-Run answers r)
    ∙ append_assoc (accepted w) xs ys
    ∙ ap (◌++◌ (accepted w)) (sym e)
