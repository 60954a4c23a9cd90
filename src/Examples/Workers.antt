-- ===== src/Examples/Workers.antt =====
-- The theorems on the sending of messages at one object.
use demo_colombia.Base.{
  ℕ, ◌≡◌, ◌≢◌, ◌≤◌, ◌↔◌, refl, inl, Bool, true, false, List, [], ◌∷◌, ◌++◌, ◌+◌,
}
use demo_colombia.Broker.{
  verdict, MosqErr, success, payload_size, Client, send_mqtt_message, gives_up,
}
use demo_colombia.Broker.Retries.{SentWithin, send_mqtt_message-true, send_mqtt_message_bounds}
use demo_colombia.Worker.{Worker, Position, top, waiting, pushes, stops, Run, here, next}
use demo_colombia.Worker.Order.{accepted, accepted-Run}
use demo_colombia.Worker.Blocking.{IsAsleep, Run-IsAsleep, Run-blocked}
use demo_colombia.Worker.Finish.{CanFinish, CanFinish-iff}
use demo_colombia.Worker.Progress.{Drained, Run-Drained}

abbrev new_client : Client
new_client = record { publishes = 0; reconnects = 0 }

abbrev sends : ℕ → ℕ → MosqErr
sends x n = success

abbrev refuses : ℕ → ℕ → MosqErr
refuses x n = payload_size

abbrev worker : List ℕ → Position → Worker ℕ
worker q position = record {
  running = true;
  queue = q;
  position = position;
  client = new_client;
  delivered = [];
}

pushed :
    {answers : ℕ → ℕ → MosqErr}
    → Run answers (worker (7 ∷ []) top) (8 ∷ []) (worker (7 ∷ 8 ∷ []) top)
pushed = next here (pushes 8 (inl refl)) refl

accepted-Run_example : accepted (worker (7 ∷ 8 ∷ []) top) ≡ accepted (worker (7 ∷ []) top) ++ 8 ∷ []
accepted-Run_example = accepted-Run sends pushed

abbrev asleep : Bool → Worker ℕ
asleep running = record (worker [] waiting) { running = running }

Run-IsAsleep_example : IsAsleep (asleep false)
Run-IsAsleep_example =
    Run-IsAsleep sends {w = asleep true} (next here stops refl) refl
      (record { at_wait = refl; no_object = refl })

refuses-gives_up : (n : ℕ) → verdict (refuses 7 n) ≡ gives_up
unfolding verdict
refuses-gives_up n = refl

Run-blocked_example :
    ((worker (7 ∷ 8 ∷ []) top).queue ≡ 7 ∷ ([] ++ 8 ∷ []))
    × ((worker (7 ∷ 8 ∷ []) top).delivered ≡ (worker (7 ∷ []) top).delivered)
Run-blocked_example = Run-blocked refuses 7 refuses-gives_up [] pushed refl

Run-Drained_example : Drained sends (λ x n. refl) (7 ∷ 8 ∷ []) (worker (7 ∷ 8 ∷ []) top)
Run-Drained_example =
    Run-Drained sends (λ x n. refl) (7 ∷ 8 ∷ []) (worker (7 ∷ 8 ∷ []) top) refl refl refl

send_mqtt_message-true_example :
    ((send_mqtt_message (refuses 7) new_client).0 ≡ true) ↔ SentWithin (refuses 7) 0 5
send_mqtt_message-true_example = send_mqtt_message-true (refuses 7) new_client

send_mqtt_message_bounds_example :
    let c = (send_mqtt_message (sends 7) new_client).1 in
    (0 + 1 ≤ c.publishes) × (c.publishes ≤ 0 + 5) × (c.reconnects + 0 ≤ 0 + c.publishes)
send_mqtt_message_bounds_example = send_mqtt_message_bounds (sends 7) new_client

abbrev stopping : Worker ℕ
stopping = record (worker (7 ∷ []) waiting) { running = false }

CanFinish-iff_example : CanFinish refuses stopping ↔ (stopping.queue ≢ [])
CanFinish-iff_example = CanFinish-iff refuses stopping refl refl
