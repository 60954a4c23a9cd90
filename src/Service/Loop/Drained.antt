-- ===== src/Service/Loop/Drained.antt =====
-- With a broker that accepts, rounds of its thread empty the queue.
use demo_colombia.Base.{
  ℕ, zero, suc, ◌≤◌, ◌≡◌, refl, sym, ap, subst, ◌∙◌, true, Option, some, List, [], ◌∷◌, ◌++◌,
  append-nil, length, map, arith,
}
use demo_colombia.Gst.{M, Ptr, Env, History, Settings}
use demo_colombia.Gst.Ensures.{Returns}
use demo_colombia.ObjInfo.{ObjInfo}
use demo_colombia.ObjInfo.Pop.{destroy-front}
use demo_colombia.ObjInfo.View.{Shows}
use demo_colombia.ObjInfo.Queue.{DrainsTo}
use demo_colombia.Messages.{JsonObject}
use demo_colombia.Messages.Queued.{message_of, set_mqtt_message-view}
use demo_colombia.Broker.{MosqErr, success, send_mqtt_message}
use demo_colombia.Broker.Retries.{send_mqtt_message_sent}
use demo_colombia.Probe.{AppCtx}
use demo_colombia.Service.Main.{Event, serves, Service, serve_front, serve_queue, handle, main_loop}
use demo_colombia.Service.Loop.{CanPublish, IsServing}
use demo_colombia.ObjInfo.{Heap}
use demo_colombia.Service.Loop.Steps.{main_loop-event, main_loop_nil}
use demo_colombia.Service.Loop.Serving.{popped-IsServing, serve_queue_step}

abbrev pub rounds : ℕ → List Event
rounds zero = []
rounds (suc n) = serves ∷ rounds n

nil_of_length {ℓ} : {A : Type ℓ} (xs : List A) → length xs ≤ 0 → xs ≡ []
nil_of_length [] h = refl
nil_of_length (x ∷ xs) h = absurd (omega arith)

Shows-nil :
    (h : Heap) (q : List (ObjInfo ℕ)) (rs : List (ObjInfo (Option (List ℕ))))
    → Shows h q rs
    → rs ≡ []
    → q ≡ []
Shows-nil h [] rs s e = refl
Shows-nil h (x ∷ q) [] s e = absurd s
Shows-nil h (x ∷ q) (r ∷ rs) s e = cc

module _ (widen : ℕ → ℕ) (answers : JsonObject → ℕ → MosqErr)
    (accepts : (m : JsonObject) (n : ℕ) → answers m n ≡ success) (base : ℕ → Option (List ℕ))
    (count size : ℕ) (c : Settings) (k : ℕ) (all : List (ObjInfo (Option (List ℕ)))) (env : Env)
    (ctx : AppCtx) (publishes : CanPublish ctx.settings) where
  -- The loop runs, and at most `n` reports are pending.
  abbrev pub Pending : ℕ → Service → Type 0
  Pending n s =
      (v : IsServing widen base count size c k all s) × (length v.pending ≤ n) × (s.running ≡ true)

  serve_front-Pending :
      (n : ℕ) (s : Service) (x : ObjInfo ℕ) (q : List (ObjInfo ℕ)) (r : ObjInfo (Option (List ℕ)))
      (rs : List (ObjInfo (Option (List ℕ)))) (h : History)
      (v : IsServing widen base count size c k all s)
      → v.pending ≡ r ∷ rs
      → length rs ≤ n
      → s.running ≡ true
      → Shows s.probed.heap (x ∷ q) (r ∷ rs)
      → DrainsTo base (x ∷ q) s.probed.heap
      → Returns (Pending n) (serve_front widen answers x q (message_of widen r) s env h).0
  unfolding serve_front
  serve_front-Pending n s x q r rs h v e le on shows d =
      let m = message_of widen r in
      let (h₁, a, heap, d₁, shows₁) =
        destroy-front base x q s.probed.heap r rs v.holds.heap_sound d shows in
      let sending = send_mqtt_message (answers m) s.client in
      let sent =
        ap (λ r. r.0)
          (send_mqtt_message_sent (answers m) s.client (accepts m s.client.publishes)) in
      let (w, left) =
        popped-IsServing widen answers base count size c k all env ctx.settings publishes s q h₁
          sending.1 r rs v e heap d₁ shows₁ in
      rw (sent, a) (w, subst (λ l. length l ≤ n) (sym left) le, on)

  serve_objects-Pending :
      (n : ℕ) (s : Service) (q : List (ObjInfo ℕ)) (rs : List (ObjInfo (Option (List ℕ))))
      (h : History) (v : IsServing widen base count size c k all s)
      → v.pending ≡ rs
      → length rs ≤ suc n
      → s.running ≡ true
      → Shows s.probed.heap q rs
      → DrainsTo base q s.probed.heap
      → Returns (Pending n) (serve_queue widen answers ctx.settings (some q) s env h).0
  unfolding serve_queue
  serve_objects-Pending n s [] [] h v e le on shows d =
      (v, subst (λ l. length l ≤ n) (sym e) (omega arith), on)
  serve_objects-Pending n s [] (r ∷ rs) h v e le on shows d = absurd shows
  serve_objects-Pending n s (x ∷ q) [] h v e le on shows d = absurd shows
  serve_objects-Pending n s (x ∷ q) (r ∷ rs) h v e le on shows d =
      subst (λ m. Returns (Pending n) m.0)
        (sym (
          serve_queue_step widen answers base count size c k all env ctx.settings publishes s x q
            (message_of widen r) h (set_mqtt_message-view widen x s.probed.heap r shows.0 shows.1)))
        (serve_front-Pending n s x q r rs h v e (omega arith) on shows d)

  module _ (loop : Ptr) where
    abbrev from : List Event → Service → M Service
    from = main_loop widen answers ctx loop

    serves-Pending :
        (n : ℕ) (s : Service) (h : History)
        → Pending (suc n) s
        → Returns (Pending n) (handle widen answers ctx loop serves s env h).0
    unfolding handle
    serves-Pending n s h (v, le, on) =
        subst (λ o. Returns (Pending n) (serve_queue widen answers ctx.settings o s env h).0)
          (sym v.holds.there)
          (serve_objects-Pending n s v.holds.queue v.pending h v refl le on v.holds.shows
            v.holds.drains)

    -- Nothing is left to send.
    abbrev pub IsDrained : Service → Type 0
    IsDrained s = (s.sent ≡ map (message_of widen) all) × (s.probed.obj_list ≡ some [])

    Pending-IsDrained : (s : Service) → Pending 0 s → IsDrained s
    Pending-IsDrained s (v, le, on) =
        let none_left = nil_of_length v.pending le in
        (
          sym (append-nil s.sent)
              ∙ ap (λ l. s.sent ++ map (message_of widen) l) (sym none_left)
              ∙ v.delivered,
          v.holds.there
              ∙ ap some (Shows-nil s.probed.heap v.holds.queue v.pending v.holds.shows none_left),
        )

    -- If the settings for the messages are there, the broker accepts every message, and the loop runs in a sound state in which at most `n`
    -- reports are pending, then `n` rounds of the broker's thread send them all: afterwards the broker
    -- has taken the messages of all reports so far, in order and once each, and the queue is empty.
    pub main_loop-IsDrained :
        (n : ℕ) (s : Service) (h : History)
        → Pending n s
        → Returns IsDrained (from (rounds n) s env h).0
    main_loop-IsDrained zero s h v =
        subst (λ m. Returns IsDrained (m env h).0)
          (sym (main_loop_nil widen answers ctx loop env s)) (Pending-IsDrained s v)
    main_loop-IsDrained (suc n) s h v =
        main_loop-event widen answers ctx loop env (Pending n) IsDrained serves (rounds n) s h v.2
          (serves-Pending n s h v) (λ s' h' v'. main_loop-IsDrained n s' h' v')
