-- ===== src/Broker/Retries.antt =====
-- When `send_mqtt_message` succeeds, and how often it publishes.
use demo_colombia.Base.{
  ℕ, zero, suc, ◌+◌, ◌≤◌, ◌<◌, ◌≡◌, refl, ◌⊎◌, ◌↔◌, ◌≢◌, subst, inl, inr, Bool, true, false, arith,
}
use demo_colombia.Broker.{
  MosqErr, success, inval, nomem, no_conn, protocol, payload_size, malformed_utf8,
  qos_not_supported, oversize_packet, other, Client, Verdict, sent, gives_up, retries,
  reconnects_and_retries, verdict, send_tries, send_mqtt_message, after_publish, after_reconnect,
}

-- The answers after which the source says that the broker, the memory or the connection may recover,
-- and the codes that it does not name.
pub data IsTransient : MosqErr → Type 0 where
  transient_nomem : IsTransient nomem
  transient_no_conn : IsTransient no_conn
  transient_protocol : IsTransient protocol
  transient_other : IsTransient other

-- The message goes out with the k-th of at most `tries` publishes, all before it met a transient error.
abbrev pub SentWithin : (ℕ → MosqErr) → ℕ → ℕ → Type 0
SentWithin answers first tries =
    (k : ℕ) × (k < tries)
    × (answers (first + k) ≡ success)
    × ((j : ℕ) → j < k → IsTransient (answers (first + j)))

Verdict-cases :
    (v : Verdict) → (v ≡ sent) ⊎ ((v ≡ gives_up) ⊎ ((v ≡ retries) ⊎ (v ≡ reconnects_and_retries)))
Verdict-cases sent = inl refl
Verdict-cases gives_up = inr (inl refl)
Verdict-cases retries = inr (inr (inl refl))
Verdict-cases reconnects_and_retries = inr (inr (inr refl))

success_of_sent : (e : MosqErr) → verdict e ≡ sent → e ≡ success
unfolding verdict
success_of_sent e h = ground arith

IsTransient-of_retries :
    (e : MosqErr) → (verdict e ≡ retries) ⊎ (verdict e ≡ reconnects_and_retries) → IsTransient e
unfolding verdict
IsTransient-of_retries success h = ground arith
IsTransient-of_retries inval h = ground arith
IsTransient-of_retries nomem h = transient_nomem
IsTransient-of_retries no_conn h = transient_no_conn
IsTransient-of_retries protocol h = transient_protocol
IsTransient-of_retries payload_size h = ground arith
IsTransient-of_retries malformed_utf8 h = ground arith
IsTransient-of_retries qos_not_supported h = ground arith
IsTransient-of_retries oversize_packet h = ground arith
IsTransient-of_retries other h = transient_other

verdict_of_transient : {e : MosqErr} → IsTransient e → (verdict e ≢ sent) × (verdict e ≢ gives_up)
unfolding verdict
verdict_of_transient transient_nomem = (λ h. cc, λ h. cc)
verdict_of_transient transient_no_conn = (λ h. cc, λ h. cc)
verdict_of_transient transient_protocol = (λ h. cc, λ h. cc)
verdict_of_transient transient_other = (λ h. cc, λ h. cc)

verdict_of_success : {e : MosqErr} → e ≡ success → verdict e ≡ sent
unfolding verdict
verdict_of_success e = ground arith

send_tries_zero : (answers : ℕ → MosqErr) (c : Client) → send_tries answers 0 c ≡ (false, c)
unfolding send_tries
send_tries_zero answers c = refl

module _ (answers : ℕ → MosqErr) where
  SentWithin-suc :
      (first tries : ℕ)
      → IsTransient (answers first)
      → SentWithin answers (first + 1) tries
      → SentWithin answers first (suc tries)
  SentWithin-suc first tries t (k, lt, e, before) =
      (suc k, omega arith, subst (λ n. answers n ≡ success) (omega arith) e, earlier)
    where
      earlier : (j : ℕ) → j < suc k → IsTransient (answers (first + j))
      earlier zero h = subst (λ n. IsTransient (answers n)) (omega arith) t
      earlier (suc j) h =
          subst (λ n. IsTransient (answers n)) (omega arith) (before j (omega arith))

  SentWithin-pred :
      (first tries : ℕ)
      → verdict (answers first) ≢ sent
      → SentWithin answers first (suc tries)
      → SentWithin answers (first + 1) tries
  SentWithin-pred first tries n (zero, lt, e, before) =
      absurd (n (verdict_of_success (subst (λ m. answers m ≡ success) {y = first} (omega arith) e)))
  SentWithin-pred first tries n (suc k, lt, e, before) = (
    k,
    omega arith,
    subst (λ m. answers m ≡ success) (omega arith) e,
    λ j h. subst (λ m. IsTransient (answers m)) (omega arith) (before (suc j) (omega arith)),
  )

  not-SentWithin_of_gives_up :
      (first tries : ℕ) → verdict (answers first) ≡ gives_up → ¬ SentWithin answers first tries
  not-SentWithin_of_gives_up first tries g (zero, lt, e, before) =
      cc (g, verdict_of_success (subst (λ m. answers m ≡ success) {y = first} (omega arith) e))
  not-SentWithin_of_gives_up first tries g (suc k, lt, e, before) =
      (verdict_of_transient (
          subst (λ m. IsTransient (answers m)) {y = first} (omega arith)
            (before zero (omega arith)))).1
        g

  -- The four cases of one round.
  round_sent :
      (tries : ℕ) (c : Client)
      → verdict (answers c.publishes) ≡ sent
      → send_tries answers (suc tries) c ≡ (true, after_publish c)
  unfolding send_tries
  round_sent tries c v = rw (v, send_tries)

  round_gives_up :
      (tries : ℕ) (c : Client)
      → verdict (answers c.publishes) ≡ gives_up
      → send_tries answers (suc tries) c ≡ (false, after_publish c)
  unfolding send_tries
  round_gives_up tries c v = rw (v, send_tries)

  round_retries :
      (tries : ℕ) (c : Client)
      → verdict (answers c.publishes) ≡ retries
      → send_tries answers (suc tries) c ≡ send_tries answers tries (after_publish c)
  unfolding send_tries
  round_retries tries c v = rw (v, send_tries)

  round_reconnects :
      (tries : ℕ) (c : Client)
      → verdict (answers c.publishes) ≡ reconnects_and_retries
      → send_tries answers (suc tries) c
        ≡ send_tries answers tries (after_reconnect (after_publish c))
  unfolding send_tries
  round_reconnects tries c v = rw (v, send_tries)

  -- A round that is followed by others.
  send_tries-suc :
      (tries : ℕ) (c : Client) (b : Bool × Client)
      → IsTransient (answers c.publishes)
      → (b.0 ≡ true) ↔ SentWithin answers (c.publishes + 1) tries
      → (b.0 ≡ true) ↔ SentWithin answers c.publishes (suc tries)
  send_tries-suc tries c b t ih = (
    λ h. SentWithin-suc c.publishes tries t (ih.0 h),
    λ s. ih.1 (SentWithin-pred c.publishes tries (verdict_of_transient t).0 s),
  )

  send_tries-true :
      (tries : ℕ) (c : Client)
      → ((send_tries answers tries c).0 ≡ true) ↔ SentWithin answers c.publishes tries
  send_tries-true zero c = (λ h. cc (send_tries_zero answers c), λ s. absurd (omega (arith, s.1)))
  send_tries-true (suc tries) c = elim (Verdict-cases (verdict (answers c.publishes))) [
    | inl v ↦ rw (round_sent tries c v) (
      λ _. (
        zero,
        omega arith,
        subst (λ n. answers n ≡ success) {y = c.publishes + 0} (omega arith) (success_of_sent _ v),
        λ j h. absurd (omega arith),
      ),
      λ _. refl,
    )
    | inr (inl v) ↦
        rw (round_gives_up tries c v)
          (λ h. cc, λ s. absurd (not-SentWithin_of_gives_up c.publishes (suc tries) v s))
    | inr (inr (inl v)) ↦ rw (round_retries tries c v) (
        send_tries-suc tries c (send_tries answers tries (after_publish c))
          (IsTransient-of_retries _ (inl v)) (send_tries-true tries (after_publish c)))
    | inr (inr (inr v)) ↦ rw (round_reconnects tries c v) (
        send_tries-suc tries c (send_tries answers tries (after_reconnect (after_publish c)))
          (IsTransient-of_retries _ (inr v))
          (send_tries-true tries (after_reconnect (after_publish c))))
  ]

  -- `send_mqtt_message` reports success exactly when one of the next five publishes succeeds and all
  -- before it meet a transient error.
  pub send_mqtt_message-true :
      (c : Client) → ((send_mqtt_message answers c).0 ≡ true) ↔ SentWithin answers c.publishes 5
  unfolding send_mqtt_message
  send_mqtt_message-true c = send_tries-true 5 c

  -- `tries` rounds publish at most `tries` times, and reconnect at most as often as they publish.
  abbrev Bounded : ℕ → Client → Client → Type 0
  Bounded tries c c' =
      (c.publishes ≤ c'.publishes)
      × (c'.publishes ≤ c.publishes + tries)
      × (c'.reconnects + c.publishes ≤ c.reconnects + c'.publishes)

  send_tries-Bounded : (tries : ℕ) (c : Client) → Bounded tries c (send_tries answers tries c).1
  unfolding send_tries
  send_tries-Bounded zero c = omega arith
  send_tries-Bounded (suc tries) c = ground (
    arith,
    send_tries-Bounded tries (after_publish c),
    send_tries-Bounded tries (after_reconnect (after_publish c)),
  )

  first_publish :
      (tries : ℕ) (c : Client) → c.publishes + 1 ≤ (send_tries answers (suc tries) c).1.publishes
  unfolding send_tries
  first_publish tries c = ground (
    arith,
    send_tries-Bounded tries (after_publish c),
    send_tries-Bounded tries (after_reconnect (after_publish c)),
  )

  -- `send_mqtt_message` publishes at least once and at most five times, and reconnects at most as
  -- often as it publishes.
  pub send_mqtt_message_bounds :
      (c : Client)
      → let c' = (send_mqtt_message answers c).1 in
        (c.publishes + 1 ≤ c'.publishes)
        × (c'.publishes ≤ c.publishes + 5)
        × (c'.reconnects + c.publishes ≤ c.reconnects + c'.publishes)
  unfolding send_mqtt_message
  send_mqtt_message_bounds c = omega (arith, first_publish 4 c, send_tries-Bounded 5 c)

  -- After one answer that the source takes as final nothing is tried again.
  pub send_mqtt_message_gives_up :
      (c : Client)
      → verdict (answers c.publishes) ≡ gives_up
      → send_mqtt_message answers c ≡ (false, after_publish c)
  unfolding send_mqtt_message
  send_mqtt_message_gives_up c v = round_gives_up 4 c v

  -- After a success too.
  pub send_mqtt_message_sent :
      (c : Client)
      → answers c.publishes ≡ success
      → send_mqtt_message answers c ≡ (true, after_publish c)
  unfolding send_mqtt_message
  send_mqtt_message_sent c e = round_sent 4 c (verdict_of_success e)
