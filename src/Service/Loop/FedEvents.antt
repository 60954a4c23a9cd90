-- ===== src/Service/Loop/FedEvents.antt =====
-- What each event of the main loop leaves of streams that bring frames.
use demo_colombia.Base.{
  ◌<◌, ◌^◌, arith, inl, inr, Bool-cases, if◌then◌else◌, ℕ, ◌+◌, ◌≡◌, refl, sym, subst, Bool, true,
  false, Option, none, some, List, [], ◌∷◌, ◌++◌, length, ◌==◌,
}
use demo_colombia.Base.Int.{ℤ, to_u32}
use demo_colombia.Text.{codes}
use demo_colombia.Gst.{Ptr, Env, History, Settings, pure}
use demo_colombia.Gst.Ensures.{Returns, >>=-Returns}
use demo_colombia.Streams.Invariant.{HasSettings}
use demo_colombia.ObjInfo.{ObjInfo}
use demo_colombia.Messages.{JsonObject}
use demo_colombia.Broker.{MosqErr}
use demo_colombia.Probe.{AppCtx, last_tensor}
use demo_colombia.Probe.Invariant.{AreComplete}
use demo_colombia.Probe.Reports.{batch_reports}
use demo_colombia.Service.Main.{
  publish_settings, tick, bus_message, buffer, serves, Service, handle,
}
use demo_colombia.Service.Loop.{CanPublish, IsAfter}
use demo_colombia.Service.Loop.Events.{
  bus_call-Returns, tick-After, serves-After, message-After, buffer-After,
}
use demo_colombia.Pipeline.{Pipeline}
use demo_colombia.Streams.Watchdog.{check_performance}
use demo_colombia.Gst.Ensures.{Ensures, Returns-both, Returns-of_Ensures, Returns-map}
use demo_colombia.Probe.{BatchMeta, nvanalytics_src_pad_buffer_probe}
use demo_colombia.Probe.Frames.{frames_of, AllSound}
use demo_colombia.Probe.Batch.{Processed, nvanalytics_src_pad_buffer_probe-Processed}
use demo_colombia.Service.Bus.{BusMessage, bus_call}
use demo_colombia.Service.Main.{serve_queue, serve_front, is_error}
use demo_colombia.Service.Loop.{AreCounted}
use demo_colombia.Service.Loop.Buffers.{IsLow-HasRoom}
use demo_colombia.Service.Loop.Fed.{IsFed, AreLively, check_performance-IsFed, Counts-IsFed}

-- A round of the broker's thread leaves the pipeline alone.
serve_queue-pipeline :
    (widen : ℕ → ℕ) (answers : JsonObject → ℕ → MosqErr) (settings : Settings) (s : Service)
    (env : Env) (h : History)
    → Ensures
        (λ s'. s'.probed.pipeline ≡ s.probed.pipeline)
        (serve_queue widen answers settings s.probed.obj_list s env h).0
unfolding serve_queue serve_front publish_settings
serve_queue-pipeline widen answers settings s env h = ground arith

module _ (widen : ℕ → ℕ) (answers : JsonObject → ℕ → MosqErr) (base : ℕ → Option (List ℕ))
    (count size : ℕ) (c : Settings) (ok : HasSettings c) (ctx : AppCtx)
    (complete : AreComplete ctx.sources) (interval : ℤ) (nonzero : (to_u32 interval == 0) ≡ false)
    (set : ctx.settings.as_int (codes "mqtt-broker" ∷ codes "frame-interval" ∷ []) ≡ some interval)
    (publishes : CanPublish ctx.settings) (loop : Ptr) (env : Env) where
  abbrev After : ℕ → List (ObjInfo (Option (List ℕ))) → Bool → Service → Type 0
  After = IsAfter widen base count size c

  module _ (p : Pipeline) (lively : AreLively count p) where
    abbrev Fed : (ℕ → ℕ) → Service → Type 0
    Fed seen s = IsFed count p seen s.probed.pipeline

    pub tick-Fed :
        (k : ℕ) (all : List (ObjInfo (Option (List ℕ)))) (seen : ℕ → ℕ) (s : Service) (h : History)
        → ((i : ℕ) → i < count → 0 < seen i)
        → After k all true s
        → Fed seen s
        → Returns
            (λ s'. After 0 all true s' × Fed (λ i. 0) s')
            (handle widen answers ctx loop tick s env h).0
    unfolding handle
    tick-Fed k all seen s h some_frames v fed =
        Returns-both (After 0 all true) (Fed (λ i. 0))
          (handle widen answers ctx loop tick s env h).0
          (tick-After widen answers base count size c ok ctx complete interval nonzero set publishes
            loop env k all s h v)
          (>>=-Returns (λ r. IsFed count p (λ i. 0) r.0) (Fed (λ i. 0))
            (λ r. pure (record s { probed = record s.probed { pipeline = r.0 } })) env
            (check_performance s.probed.pipeline) h
            (check_performance-IsFed count size c ok env p s.probed.pipeline seen h lively
              some_frames v.0.sound v.0.own fed)
            (λ r h' m. m))

    pub serves-Fed :
        (k : ℕ) (all : List (ObjInfo (Option (List ℕ)))) (seen : ℕ → ℕ) (s : Service) (h : History)
        → After k all true s
        → Fed seen s
        → Returns
            (λ s'. After k all true s' × Fed seen s')
            (handle widen answers ctx loop serves s env h).0
    unfolding handle
    serves-Fed k all seen s h v fed =
        let r = (handle widen answers ctx loop serves s env h).0 in
        let served =
          serves-After widen answers base count size c ok ctx complete interval nonzero set
            publishes loop env k all s h v in
        Returns-both (After k all true) (Fed seen) r served (
          Returns-map (λ s'. s'.probed.pipeline ≡ s.probed.pipeline) (Fed seen) r
            (λ s' e. subst (IsFed count p seen) (sym e) fed)
            (Returns-of_Ensures (λ s'. s'.probed.pipeline ≡ s.probed.pipeline) r
              (serve_queue-pipeline widen answers ctx.settings s env h)
              (Returns-map (After k all true) (λ _. Unit {0}) r (λ _ _. tt) served)))

    pub message-Fed :
        (m : BusMessage) (k : ℕ) (all : List (ObjInfo (Option (List ℕ)))) (seen : ℕ → ℕ)
        (s : Service) (h : History)
        → After k all true s
        → Fed seen s
        → Returns
            (λ s'. After k all (if is_error m then false else true) s' × Fed seen s')
            (handle widen answers ctx loop (bus_message m) s env h).0
    unfolding handle
    message-Fed m k all seen s h v fed =
        Returns-both (After k all (if is_error m then false else true)) (Fed seen)
          (handle widen answers ctx loop (bus_message m) s env h).0
          (message-After widen answers base count size c ok ctx complete interval nonzero set
            publishes loop env m k all s h v)
          (>>=-Returns (λ r. r ≡ true) (Fed seen)
            (λ _. pure (if is_error m then record s { running = false } else s)) env
            (bus_call m loop) h (bus_call-Returns m loop env h)
            (λ _ _ _. elim (Bool-cases (is_error m)) [
              | inl ends ↦ rw ends fed
              | inr other ↦ rw other fed
            ]))

    pub absent-Fed :
        (now k : ℕ) (all : List (ObjInfo (Option (List ℕ)))) (seen : ℕ → ℕ) (s : Service)
        (h : History)
        → After k all true s
        → Fed seen s
        → Returns
            (λ s'. After k all true s' × Fed seen s')
            (handle widen answers ctx loop (buffer now none) s env h).0
    unfolding handle nvanalytics_src_pad_buffer_probe
    absent-Fed now k all seen s h v fed = rw set (v, fed)

    pub buffer-Fed :
        (now : ℕ) (b : BatchMeta) (k : ℕ) (all : List (ObjInfo (Option (List ℕ)))) (seen : ℕ → ℕ)
        (s : Service) (h : History)
        → k + length b.frames < 2 ^ 31
        → AreCounted count b.frames
        → AllSound (last_tensor b.user_metas none) b.frames
        → After k all true s
        → Fed seen s
        → Returns
            (λ s'.
              After
                (k + length b.frames)
                (all ++ batch_reports ctx now (last_tensor b.user_metas none) interval b.frames)
                true
                s'
              × Fed (λ i. seen i + frames_of i b.frames) s')
            (handle widen answers ctx loop (buffer now (some b)) s env h).0
    unfolding handle
    buffer-Fed now b k all seen s h few counted w v fed =
        let tensor = last_tensor b.user_metas none in
        Returns-both _ (Fed (λ i. seen i + frames_of i b.frames))
          (handle widen answers ctx loop (buffer now (some b)) s env h).0
          (buffer-After widen answers base count size c ok ctx complete interval nonzero set
            publishes loop env now b k all s h few counted w v)
          (>>=-Returns
            (Processed base ctx now tensor complete env interval nonzero s.probed.pipeline
              v.0.pending b.frames)
            (Fed (λ i. seen i + frames_of i b.frames)) (λ st. pure (record s { probed = st })) env
            (nvanalytics_src_pad_buffer_probe ctx now (some b) s.probed) h
            (nvanalytics_src_pad_buffer_probe-Processed base ctx now tensor complete env interval
              nonzero b v.0.pending s.probed h set refl w
              (IsLow-HasRoom count size k c s.probed.pipeline b.frames v.0.sound v.0.low counted
                few)
              v.0.holds)
            (λ st h' r.
              Counts-IsFed count p s.probed.pipeline st.pipeline seen b.frames r.counts fed))
