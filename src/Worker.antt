-- ===== src/Worker.antt =====
-- perception/src/perception.cpp: `send2MQTTBrokerTask`, the thread that sends the queued objects, with
-- the probe that fills the queue and `main`, which ends the loop. The mutex is held from the moment
-- the thread looks at the queue to the end of its round, but for the wait; so the probe pushes only
-- between two rounds or during the wait. The thread may wake at any time, notified or not. Nothing
-- fills `frame_list`, so the test of the queues is that of `obj_list`. The settings for the messages are
-- taken to be there: `serve_queue` of Service/Main reads them.
pub mod Order
pub mod Blocking
pub mod Progress
pub mod Finish
use demo_colombia.Base.{ℕ, ◌≡◌, ◌⊎◌, Bool, true, false, List, [], ◌∷◌, ◌++◌, if◌then◌else◌}
use demo_colombia.Broker.{MosqErr, Client, send_mqtt_message}

-- Where the thread is.
pub data Position : Type 0 where
  top waiting serving finished : Position

pub record Worker (A : Type 0) : Type 0 where
  pub running : Bool
  pub queue : List A
  pub position : Position
  pub client : Client
  -- the objects whose publish succeeded, oldest first
  pub delivered : List A

-- With the lock taken: wait on an empty queue, or serve its front.
unfoldable pub look : {A : Type 0} → List A → Position
look [] = waiting
look (x ∷ q) = serving

-- One service: the front is popped if its message was sent, and stays otherwise.
unfoldable pub serve : {A : Type 0} → (A → ℕ → MosqErr) → Worker A → A → List A → Worker A
serve answers w x q =
    let (sent, client) = send_mqtt_message (answers x) w.client in
    if sent
    then record w { queue = q; position = top; client = client; delivered = w.delivered ++ x ∷ [] }
    else record w { position = top; client = client }

-- What the thread, the probe and `main` may do next; `answers x` are the broker's answers where the
-- message is that of `x`, and the list holds the object that the step pushes, if any.
pub data Step {A : Type 0} (answers : A → ℕ → MosqErr) (w : Worker A)
    : List A → Worker A → Type 0 where
  pushes :
      (x : A)
      → (w.position ≡ top) ⊎ (w.position ≡ waiting)
      → Step answers w (x ∷ []) (record w { queue = w.queue ++ x ∷ [] })
  enters :
      w.position ≡ top → w.running ≡ true → Step answers w [] (record w { position = look w.queue })
  leaves :
      w.position ≡ top → w.running ≡ false → Step answers w [] (record w { position = finished })
  wakes : w.position ≡ waiting → Step answers w [] (record w { position = look w.queue })
  serves :
      (x : A) (q : List A)
      → w.position ≡ serving
      → w.queue ≡ x ∷ q
      → Step answers w [] (serve answers w x q)
  stops : Step answers w [] (record w { running = false })

-- Any number of steps, with the objects pushed, oldest first.
pub data Run {A : Type 0} (answers : A → ℕ → MosqErr) (w : Worker A)
    : List A → Worker A → Type 0 where
  here : Run answers w [] w
  next :
      {xs ys zs : List A} {u v : Worker A}
      → Run answers w xs u
      → Step answers u ys v
      → zs ≡ xs ++ ys
      → Run answers w zs v
