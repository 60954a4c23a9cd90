-- ===== src/Service/Loop/Serving.antt =====
-- A round of the broker's thread between two events: its front object is sent and popped, or stays.
use demo_colombia.Base.{
  ℕ, ◌≡◌, refl, sym, ap, subst, ◌∙◌, inl, inr, Bool-cases, Option, some, List, [], ◌∷◌, ◌++◌,
  append_assoc, map, arith,
}
use demo_colombia.Gst.{M, ◌>>◌, Env, History, Settings}
use demo_colombia.Gst.Ensures.{Returns}
use demo_colombia.ObjInfo.{ObjInfo, Heap}
use demo_colombia.ObjInfo.Pop.{destroy-front}
use demo_colombia.ObjInfo.View.{Shows}
use demo_colombia.ObjInfo.Queue.{DrainsTo}
use demo_colombia.ObjInfo.Ownership.{IsHeap}
use demo_colombia.Messages.{JsonObject, set_mqtt_message}
use demo_colombia.Messages.Queued.{message_of, set_mqtt_message-view}
use demo_colombia.Broker.{MosqErr, Client, send_mqtt_message}
use demo_colombia.Service.Main.{publish_settings, Service, serve_front, serve_queue}
use demo_colombia.Service.Loop.{CanPublish, IsServing}

module _ (widen : ℕ → ℕ) (answers : JsonObject → ℕ → MosqErr) (settings : Settings) where
  pub serve_queue-some :
      (s : Service) (x : ObjInfo ℕ) (q : List (ObjInfo ℕ)) (message : JsonObject)
      → set_mqtt_message widen x s.probed.heap ≡ some message
      → serve_queue widen answers settings (some (x ∷ q)) s
        ≡ publish_settings settings >> serve_front widen answers x q message s
  unfolding serve_queue
  serve_queue-some s x q message e = ground (arith, e)

module _ (widen : ℕ → ℕ) (answers : JsonObject → ℕ → MosqErr) (base : ℕ → Option (List ℕ))
    (count size : ℕ) (c : Settings) (k : ℕ) (all : List (ObjInfo (Option (List ℕ)))) (env : Env)
    (settings : Settings) (publishes : CanPublish settings) where
  abbrev pub Serves : Service → Service → Type 0
  Serves s s' = IsServing widen base count size c k all s' × (s'.running ≡ s.running)

  -- The front was sent: it leaves the queue, and its message is the last that the broker took.
  abbrev pub popped : Service → List (ObjInfo ℕ) → Heap → Client → JsonObject → Service
  popped s q h client message = record s {
    probed = record s.probed { obj_list = some q; heap = h };
    client = client;
    sent = s.sent ++ message ∷ [];
  }

  pub popped-IsServing :
      (s : Service) (q : List (ObjInfo ℕ)) (h : Heap) (client : Client)
      (r : ObjInfo (Option (List ℕ))) (rs : List (ObjInfo (Option (List ℕ))))
      (v : IsServing widen base count size c k all s)
      → v.pending ≡ r ∷ rs
      → IsHeap h
      → DrainsTo base q h
      → Shows h q rs
      → (w : IsServing widen base count size c k all (popped s q h client (message_of widen r)))
        × (w.pending ≡ rs)
  popped-IsServing s q h client r rs v e heap d shows = (
    record {
      pending = rs;
      sound = v.sound;
      own = v.own;
      low = v.low;
      holds = record {
        queue = q;
        there = refl;
        shows = shows;
        heap_sound = heap;
        drains = d;
        same = refl;
      };
      delivered =
          append_assoc s.sent (message_of widen r ∷ []) (map (message_of widen) rs)
          ∙ ap (λ l. s.sent ++ map (message_of widen) l) (sym e)
          ∙ v.delivered;
    },
    refl,
  )

  kept-IsServing :
      (s : Service) (client : Client)
      → IsServing widen base count size c k all s
      → IsServing widen base count size c k all (record s { client = client })
  kept-IsServing s client v = record {
    pending = v.pending;
    sound = v.sound;
    own = v.own;
    low = v.low;
    holds = v.holds;
    delivered = v.delivered;
  }

  serve_front-IsServing :
      (s : Service) (x : ObjInfo ℕ) (q : List (ObjInfo ℕ)) (r : ObjInfo (Option (List ℕ)))
      (rs : List (ObjInfo (Option (List ℕ)))) (h : History)
      (v : IsServing widen base count size c k all s)
      → v.pending ≡ r ∷ rs
      → Shows s.probed.heap (x ∷ q) (r ∷ rs)
      → DrainsTo base (x ∷ q) s.probed.heap
      → Returns (Serves s) (serve_front widen answers x q (message_of widen r) s env h).0
  unfolding serve_front
  serve_front-IsServing s x q r rs h v e shows d =
      let sending = send_mqtt_message (answers (message_of widen r)) s.client in
      let (h₁, a, heap, d₁, shows₁) =
        destroy-front base x q s.probed.heap r rs v.holds.heap_sound d shows in
      elim (Bool-cases sending.0) [
        | inl sent ↦
            rw (sent, a) ((popped-IsServing s q h₁ sending.1 r rs v e heap d₁ shows₁).0, refl)
        | inr kept ↦ rw kept (kept-IsServing s sending.1 v, refl)
      ]

  publish_settings-there :
      (m : M Service) (h : History) → (publish_settings settings >> m) env h ≡ m env h
  unfolding publish_settings
  publish_settings-there m h =
      let ((t, topic), (n, qos), (b, retained)) = publishes in rw (topic, qos, retained) refl

  pub serve_queue_step :
      (s : Service) (x : ObjInfo ℕ) (q : List (ObjInfo ℕ)) (message : JsonObject) (h : History)
      → set_mqtt_message widen x s.probed.heap ≡ some message
      → serve_queue widen answers settings (some (x ∷ q)) s env h
        ≡ serve_front widen answers x q message s env h
  serve_queue_step s x q message h e =
      ap (λ m. m env h) (serve_queue-some widen answers settings s x q message e)
      ∙ publish_settings-there (serve_front widen answers x q message s) h

  serve_objects-IsServing :
      (s : Service) (q : List (ObjInfo ℕ)) (rs : List (ObjInfo (Option (List ℕ)))) (h : History)
      (v : IsServing widen base count size c k all s)
      → v.pending ≡ rs
      → Shows s.probed.heap q rs
      → DrainsTo base q s.probed.heap
      → Returns (Serves s) (serve_queue widen answers settings (some q) s env h).0
  unfolding serve_queue
  serve_objects-IsServing s [] rs h v e shows d = (v, refl)
  serve_objects-IsServing s (x ∷ q) [] h v e shows d = absurd shows
  serve_objects-IsServing s (x ∷ q) (r ∷ rs) h v e shows d =
      subst (λ m. Returns (Serves s) m.0)
        (sym (
          serve_queue_step s x q (message_of widen r) h
            (set_mqtt_message-view widen x s.probed.heap r shows.0 shows.1)))
        (serve_front-IsServing s x q r rs h v e shows d)

  pub serve_queue-IsServing :
      (s : Service) (h : History)
      → IsServing widen base count size c k all s
      → Returns (Serves s) (serve_queue widen answers settings s.probed.obj_list s env h).0
  serve_queue-IsServing s h v =
      subst (λ o. Returns (Serves s) (serve_queue widen answers settings o s env h).0)
        (sym v.holds.there)
        (serve_objects-IsServing s v.holds.queue v.pending h v refl v.holds.shows v.holds.drains)
