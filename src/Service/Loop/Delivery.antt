-- ===== src/Service/Loop/Delivery.antt =====
-- The main loop under every schedule of events.
use demo_colombia.Base.{
  ℕ, ◌+◌, ◌≡◌, sym, subst, Bool, true, false, Option, none, some, List, [], ◌∷◌, ◌++◌, append_assoc,
  append-nil, length, ◌==◌,
}
use demo_colombia.Base.Int.{ℤ, to_u32}
use demo_colombia.Text.{codes}
use demo_colombia.Gst.{M, Ptr, Env, History, Settings, pure}
use demo_colombia.Gst.Ensures.{Returns}
use demo_colombia.Streams.Invariant.{HasSettings}
use demo_colombia.ObjInfo.{ObjInfo}
use demo_colombia.Messages.{JsonObject}
use demo_colombia.Broker.{MosqErr}
use demo_colombia.Probe.{AppCtx, last_tensor}
use demo_colombia.Probe.Invariant.{AreComplete}
use demo_colombia.Probe.Reports.{batch_reports}
use demo_colombia.Service.Bus.{error, warning, element, other_message}
use demo_colombia.Service.Main.{Event, tick, bus_message, buffer, serves, Service, main_loop}
use demo_colombia.Service.Loop.{CanPublish, IsAfter, IsServing, IsPaced, reports_of}
use demo_colombia.Service.Loop.Events.{
  tick-After, serves-After, message-After, buffer-After, absent-After,
}
use demo_colombia.Service.Loop.Steps.{main_loop-event, main_loop_nil, main_loop_ended}

module _ (widen : ℕ → ℕ) (answers : JsonObject → ℕ → MosqErr) (base : ℕ → Option (List ℕ))
    (count size : ℕ) (c : Settings) (ok : HasSettings c) (ctx : AppCtx)
    (complete : AreComplete ctx.sources) (interval : ℤ) (nonzero : (to_u32 interval == 0) ≡ false)
    (set : ctx.settings.as_int (codes "mqtt-broker" ∷ codes "frame-interval" ∷ []) ≡ some interval)
    (publishes : CanPublish ctx.settings) (loop : Ptr) (env : Env) where
  -- After an event.
  abbrev After : ℕ → List (ObjInfo (Option (List ℕ))) → Bool → Service → Type 0
  After = IsAfter widen base count size c

  abbrev loop_from : List Event → Service → M Service
  loop_from = main_loop widen answers ctx loop

  -- Some number of frames was seen since the last tick.
  abbrev pub Delivers : List (ObjInfo (Option (List ℕ))) → Service → Type 0
  Delivers all s = (k : ℕ) × IsServing widen base count size c k all s

  settled :
      (es : List Event) (k : ℕ) (all : List (ObjInfo (Option (List ℕ)))) (s : Service) (h : History)
      → loop_from es s ≡ pure s
      → IsServing widen base count size c k all s
      → Returns (Delivers (all ++ [])) (loop_from es s env h).0
  settled es k all s h e v =
      subst (λ m. Returns (Delivers (all ++ [])) (m env h).0) (sym e)
        (k, subst (λ l. IsServing widen base count size c k l s) (sym (append-nil all)) v)

  -- Under every schedule of ticks, bus messages, batches and rounds of the broker's thread, whatever
  -- the libraries and the broker answer: if the settings, those for the broker's messages too, and
  -- the sources are complete, the interval is not 0 modulo 2^32, the loop runs and its state is sound, each batch is of counted streams and names
  -- embeddings inside its last tensor, and fewer than 2^31 frames pass between two ticks, then the main
  -- loop reaches no undefined behaviour, throws nothing and leaves a sound state, in which the messages
  -- that the broker took, followed by those of the queue, are those of all reports that the batches
  -- brought before the first error on the bus, in order, none lost or sent twice.
  pub main_loop-Delivers :
      (es : List Event) (k : ℕ) (all : List (ObjInfo (Option (List ℕ)))) (s : Service) (h : History)
      → IsPaced count k es
      → After k all true s
      → Returns (Delivers (all ++ reports_of ctx interval es)) (loop_from es s env h).0
  main_loop-Delivers [] k all s h paced v =
      settled [] k all s h (main_loop_nil widen answers ctx loop env s) v.0
  main_loop-Delivers (tick ∷ es) k all s h paced v =
      main_loop-event widen answers ctx loop env (After 0 all true) _ tick es s h v.1
        (tick-After widen answers base count size c ok ctx complete interval nonzero set publishes
          loop env k all s h v)
        (λ s' h' v'. main_loop-Delivers es 0 all s' h' paced v')
  main_loop-Delivers (serves ∷ es) k all s h paced v =
      main_loop-event widen answers ctx loop env (After k all true) _ serves es s h v.1
        (serves-After widen answers base count size c ok ctx complete interval nonzero set publishes
          loop env k all s h v)
        (λ s' h' v'. main_loop-Delivers es k all s' h' paced v')
  main_loop-Delivers (bus_message error ∷ es) k all s h paced v =
      main_loop-event widen answers ctx loop env (After k all false) _ (bus_message error) es s h
        v.1
        (message-After widen answers base count size c ok ctx complete interval nonzero set
          publishes loop env error k all s h v)
        (λ s' h' v'.
          settled es k all s' h' (main_loop_ended widen answers ctx loop env es s' v'.1) v'.0)
  main_loop-Delivers (bus_message warning ∷ es) k all s h paced v =
      main_loop-event widen answers ctx loop env (After k all true) _ (bus_message warning) es s h
        v.1
        (message-After widen answers base count size c ok ctx complete interval nonzero set
          publishes loop env warning k all s h v)
        (λ s' h' v'. main_loop-Delivers es k all s' h' paced v')
  main_loop-Delivers (bus_message element ∷ es) k all s h paced v =
      main_loop-event widen answers ctx loop env (After k all true) _ (bus_message element) es s h
        v.1
        (message-After widen answers base count size c ok ctx complete interval nonzero set
          publishes loop env element k all s h v)
        (λ s' h' v'. main_loop-Delivers es k all s' h' paced v')
  main_loop-Delivers (bus_message other_message ∷ es) k all s h paced v =
      main_loop-event widen answers ctx loop env (After k all true) _ (bus_message other_message) es
        s h v.1
        (message-After widen answers base count size c ok ctx complete interval nonzero set
          publishes loop env other_message k all s h v)
        (λ s' h' v'. main_loop-Delivers es k all s' h' paced v')
  main_loop-Delivers (buffer now none ∷ es) k all s h paced v =
      main_loop-event widen answers ctx loop env (After k all true) _ (buffer now none) es s h v.1
        (absent-After widen answers base count size c ok ctx complete interval nonzero set publishes
          loop env now k all s h v)
        (λ s' h' v'. main_loop-Delivers es k all s' h' paced v')
  main_loop-Delivers (buffer now (some b) ∷ es) k all s h (few, counted, w, paced) v =
      let new = batch_reports ctx now (last_tensor b.user_metas none) interval b.frames in
      main_loop-event widen answers ctx loop env (After (k + length b.frames) (all ++ new) true) _
        (buffer now (some b)) es s h v.1
        (buffer-After widen answers base count size c ok ctx complete interval nonzero set publishes
          loop env now b k all s h few counted w v)
        (λ s' h' v'.
          subst (λ l. Returns (Delivers l) (loop_from es s' env h').0)
            (append_assoc all new (reports_of ctx interval es))
            (main_loop-Delivers es (k + length b.frames) (all ++ new) s' h' paced v'))
