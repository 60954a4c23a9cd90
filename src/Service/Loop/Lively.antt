-- ===== src/Service/Loop/Lively.antt =====
-- The main loop, where every counted stream brings frames between two ticks.
use demo_colombia.Base.{
  ◌<◌, ℕ, ◌+◌, ◌≡◌, sym, subst, Bool, true, false, Option, none, some, List, [], ◌∷◌, ◌++◌, length,
  ◌==◌,
}
use demo_colombia.Base.Int.{ℤ, to_u32}
use demo_colombia.Text.{codes}
use demo_colombia.Gst.{M, Ptr, Env, History, Settings, pure}
use demo_colombia.Gst.Ensures.{Returns}
use demo_colombia.Streams.Invariant.{HasSettings}
use demo_colombia.ObjInfo.{ObjInfo}
use demo_colombia.Messages.{JsonObject}
use demo_colombia.Broker.{MosqErr}
use demo_colombia.Probe.{AppCtx, last_tensor}
use demo_colombia.Probe.Invariant.{AreComplete}
use demo_colombia.Probe.Reports.{batch_reports}
use demo_colombia.Service.Bus.{error, warning, element, other_message}
use demo_colombia.Service.Main.{Event, tick, bus_message, buffer, serves, Service, main_loop}
use demo_colombia.Service.Loop.{CanPublish, IsAfter, IsPaced}
use demo_colombia.Pipeline.{Pipeline}
use demo_colombia.Probe.Frames.{frames_of}
use demo_colombia.Service.Loop.Fed.{IsFed, AreLively}
use demo_colombia.Service.Loop.Steps.{main_loop-event, main_loop_nil, main_loop_ended}
use demo_colombia.Service.Loop.FedEvents.{tick-Fed, serves-Fed, message-Fed, absent-Fed, buffer-Fed}

-- Before each tick every counted stream has brought a frame, where `seen` tells how many came before.
abbrev pub AreFrequent : ℕ → (ℕ → ℕ) → List Event → Type 0
AreFrequent count seen [] = Unit
AreFrequent count seen (tick ∷ es) =
    ((i : ℕ) → i < count → 0 < seen i) × AreFrequent count (λ i. 0) es
AreFrequent count seen (bus_message m ∷ es) = AreFrequent count seen es
AreFrequent count seen (buffer now none ∷ es) = AreFrequent count seen es
AreFrequent count seen (buffer now (some b) ∷ es) =
    AreFrequent count (λ i. seen i + frames_of i b.frames) es
AreFrequent count seen (serves ∷ es) = AreFrequent count seen es

module _ (widen : ℕ → ℕ) (answers : JsonObject → ℕ → MosqErr) (base : ℕ → Option (List ℕ))
    (count size : ℕ) (c : Settings) (ok : HasSettings c) (ctx : AppCtx)
    (complete : AreComplete ctx.sources) (interval : ℤ) (nonzero : (to_u32 interval == 0) ≡ false)
    (set : ctx.settings.as_int (codes "mqtt-broker" ∷ codes "frame-interval" ∷ []) ≡ some interval)
    (publishes : CanPublish ctx.settings) (loop : Ptr) (env : Env) where
  abbrev After : ℕ → List (ObjInfo (Option (List ℕ))) → Bool → Service → Type 0
  After = IsAfter widen base count size c

  module _ (p : Pipeline) (lively : AreLively count p) where
    abbrev Fed : (ℕ → ℕ) → Service → Type 0
    Fed seen s = IsFed count p seen s.probed.pipeline

    -- What a loop from there leaves of the streams.
    abbrev pub FedSomehow : Service → Type 0
    FedSomehow s = (seen : ℕ → ℕ) × IsFed count p seen s.probed.pipeline

    abbrev from : List Event → Service → M Service
    from = main_loop widen answers ctx loop

    settled-Fed :
        (es : List Event) (seen : ℕ → ℕ) (s : Service) (h : History)
        → from es s ≡ pure s
        → Fed seen s
        → Returns FedSomehow (from es s env h).0
    settled-Fed es seen s h e fed = subst (λ m. Returns FedSomehow (m env h).0) (sym e) (seen, fed)

    -- Under every schedule as above in which each counted stream brings a frame before each tick: if
    -- these streams have a bin and no second of silence at first, the loop leaves each of them as it
    -- was but for its frame counter, so that none is deleted, added again or counted as silent.
    pub main_loop-FedSomehow :
        (es : List Event) (k : ℕ) (all : List (ObjInfo (Option (List ℕ)))) (seen : ℕ → ℕ)
        (s : Service) (h : History)
        → IsPaced count k es
        → AreFrequent count seen es
        → After k all true s
        → Fed seen s
        → Returns FedSomehow (from es s env h).0
    main_loop-FedSomehow [] k all seen s h paced often v fed =
        settled-Fed [] seen s h (main_loop_nil widen answers ctx loop env s) fed
    main_loop-FedSomehow (tick ∷ es) k all seen s h paced (some_frames, often) v fed =
        main_loop-event widen answers ctx loop env (λ s'. After 0 all true s' × Fed (λ i. 0) s')
          FedSomehow tick es s h v.1
          (tick-Fed widen answers base count size c ok ctx complete interval nonzero set publishes
            loop env p lively k all seen s h some_frames v fed)
          (λ s' h' r. main_loop-FedSomehow es 0 all (λ i. 0) s' h' paced often r.0 r.1)
    main_loop-FedSomehow (serves ∷ es) k all seen s h paced often v fed =
        main_loop-event widen answers ctx loop env (λ s'. After k all true s' × Fed seen s')
          FedSomehow serves es s h v.1
          (serves-Fed widen answers base count size c ok ctx complete interval nonzero set publishes
            loop env p lively k all seen s h v fed)
          (λ s' h' r. main_loop-FedSomehow es k all seen s' h' paced often r.0 r.1)
    main_loop-FedSomehow (bus_message error ∷ es) k all seen s h paced often v fed =
        main_loop-event widen answers ctx loop env (λ s'. After k all false s' × Fed seen s')
          FedSomehow (bus_message error) es s h v.1
          (message-Fed widen answers base count size c ok ctx complete interval nonzero set
            publishes loop env p lively error k all seen s h v fed)
          (λ s' h' r.
            settled-Fed es seen s' h' (main_loop_ended widen answers ctx loop env es s' r.0.1) r.1)
    main_loop-FedSomehow (bus_message warning ∷ es) k all seen s h paced often v fed =
        main_loop-event widen answers ctx loop env (λ s'. After k all true s' × Fed seen s')
          FedSomehow (bus_message warning) es s h v.1
          (message-Fed widen answers base count size c ok ctx complete interval nonzero set
            publishes loop env p lively warning k all seen s h v fed)
          (λ s' h' r. main_loop-FedSomehow es k all seen s' h' paced often r.0 r.1)
    main_loop-FedSomehow (bus_message element ∷ es) k all seen s h paced often v fed =
        main_loop-event widen answers ctx loop env (λ s'. After k all true s' × Fed seen s')
          FedSomehow (bus_message element) es s h v.1
          (message-Fed widen answers base count size c ok ctx complete interval nonzero set
            publishes loop env p lively element k all seen s h v fed)
          (λ s' h' r. main_loop-FedSomehow es k all seen s' h' paced often r.0 r.1)
    main_loop-FedSomehow (bus_message other_message ∷ es) k all seen s h paced often v fed =
        main_loop-event widen answers ctx loop env (λ s'. After k all true s' × Fed seen s')
          FedSomehow (bus_message other_message) es s h v.1
          (message-Fed widen answers base count size c ok ctx complete interval nonzero set
            publishes loop env p lively other_message k all seen s h v fed)
          (λ s' h' r. main_loop-FedSomehow es k all seen s' h' paced often r.0 r.1)
    main_loop-FedSomehow (buffer now none ∷ es) k all seen s h paced often v fed =
        main_loop-event widen answers ctx loop env (λ s'. After k all true s' × Fed seen s')
          FedSomehow (buffer now none) es s h v.1
          (absent-Fed widen answers base count size c ok ctx complete interval nonzero set publishes
            loop env p lively now k all seen s h v fed)
          (λ s' h' r. main_loop-FedSomehow es k all seen s' h' paced often r.0 r.1)
    main_loop-FedSomehow (buffer now (some b) ∷ es) k all seen s h (few, counted, w, paced) often v
          fed =
        let new = batch_reports ctx now (last_tensor b.user_metas none) interval b.frames in
        main_loop-event widen answers ctx loop env
          (λ s'.
            After (k + length b.frames) (all ++ new) true s'
            × Fed (λ i. seen i + frames_of i b.frames) s')
          FedSomehow (buffer now (some b)) es s h v.1
          (buffer-Fed widen answers base count size c ok ctx complete interval nonzero set publishes
            loop env p lively now b k all seen s h few counted w v fed)
          (λ s' h' r.
            main_loop-FedSomehow es (k + length b.frames) (all ++ new)
              (λ i. seen i + frames_of i b.frames) s' h' paced often r.0 r.1)
