-- ===== src/Service/Loop/Events.antt =====
-- What each event of the main loop leaves.
use demo_colombia.Base.{
  if◌then◌else◌, ℕ, ◌+◌, ◌^◌, ◌<◌, ◌≡◌, refl, sym, ap, ◌∙◌, inl, inr, Bool, true, false, Bool-cases,
  Option, none, some, List, [], ◌∷◌, ◌++◌, append_assoc, length, map, arith, ◌==◌, map-append,
}
use demo_colombia.Base.Int.{ℤ, to_u32}
use demo_colombia.Text.{codes}
use demo_colombia.Gst.{Ptr, Env, History, Settings, pure}
use demo_colombia.Gst.Ensures.{Returns, >>=-Returns, Returns-map}
use demo_colombia.Streams.Invariant.{HasSettings}
use demo_colombia.Streams.Watchdog.{check_performance}
use demo_colombia.ObjInfo.{ObjInfo}
use demo_colombia.Messages.{JsonObject}
use demo_colombia.Messages.Queued.{message_of}
use demo_colombia.Broker.{MosqErr}
use demo_colombia.Probe.{AppCtx, BatchMeta, last_tensor, nvanalytics_src_pad_buffer_probe}
use demo_colombia.Probe.Invariant.{AreComplete}
use demo_colombia.Probe.Frames.{AllSound}
use demo_colombia.Probe.Reports.{batch_reports}
use demo_colombia.Probe.Batch.{Processed, nvanalytics_src_pad_buffer_probe-Processed}
use demo_colombia.Probe.Watched.{Counts-IsSound}
use demo_colombia.Service.Bus.{BusMessage, error, warning, element, other_message, bus_call}
use demo_colombia.Service.Main.{
  serve_queue, tick, bus_message, buffer, serves, Service, handle, is_error,
}
use demo_colombia.Service.Loop.{CanPublish, IsAfter, IsServing, AreCounted}
use demo_colombia.Service.Loop.Tick.{Ticked, check_performance-Ticked}
use demo_colombia.Service.Loop.Buffers.{IsLow-HasRoom, Counts-IsOwn, Counts-IsLow}
use demo_colombia.Service.Loop.Serving.{serve_queue-IsServing}

pub bus_call-Returns :
    (m : BusMessage) (loop : Ptr) (env : Env) (h : History)
    → Returns (λ r. r ≡ true) (bus_call m loop env h).0
unfolding bus_call
bus_call-Returns warning loop env h = refl
bus_call-Returns error loop env h = refl
bus_call-Returns element loop env h = ground arith
bus_call-Returns other_message loop env h = refl

module _ (widen : ℕ → ℕ) (answers : JsonObject → ℕ → MosqErr) (base : ℕ → Option (List ℕ))
    (count size : ℕ) (c : Settings) (ok : HasSettings c) (ctx : AppCtx)
    (complete : AreComplete ctx.sources) (interval : ℤ) (nonzero : (to_u32 interval == 0) ≡ false)
    (set : ctx.settings.as_int (codes "mqtt-broker" ∷ codes "frame-interval" ∷ []) ≡ some interval)
    (publishes : CanPublish ctx.settings) (loop : Ptr) (env : Env) where
  sent-append :
      (done : List JsonObject) (pending all new : List (ObjInfo (Option (List ℕ))))
      → done ++ map (message_of widen) pending ≡ map (message_of widen) all
      → done ++ map (message_of widen) (pending ++ new) ≡ map (message_of widen) (all ++ new)
  sent-append done pending all new e =
      ap (◌++◌ done) (map-append (message_of widen) pending new)
      ∙ sym (append_assoc done (map (message_of widen) pending) (map (message_of widen) new))
      ∙ ap (λ l. l ++ map (message_of widen) new) e
      ∙ sym (map-append (message_of widen) all new)

  -- After an event.
  abbrev After : ℕ → List (ObjInfo (Option (List ℕ))) → Bool → Service → Type 0
  After = IsAfter widen base count size c

  stays-IsServing :
      (k : ℕ) (all : List (ObjInfo (Option (List ℕ)))) (s : Service) (on : Bool)
      → IsServing widen base count size c k all s
      → IsServing widen base count size c k all (record s { running = on })
  stays-IsServing k all s on v = record {
    pending = v.pending;
    sound = v.sound;
    own = v.own;
    low = v.low;
    holds = v.holds;
    delivered = v.delivered;
  }

  pub tick-After :
      (k : ℕ) (all : List (ObjInfo (Option (List ℕ)))) (s : Service) (h : History)
      → After k all true s
      → Returns (After 0 all true) (handle widen answers ctx loop tick s env h).0
  unfolding handle
  tick-After k all s h (v, on) =
      >>=-Returns (λ r. Ticked count size c r.0) (After 0 all true)
        (λ r. pure (record s { probed = record s.probed { pipeline = r.0 } })) env
        (check_performance s.probed.pipeline) h
        (check_performance-Ticked count size c ok env s.probed.pipeline h v.sound v.own)
        (λ r h' t. (
          record {
            pending = v.pending;
            sound = t.sound;
            own = t.own;
            low = t.low;
            holds = record {
              queue = v.holds.queue;
              there = v.holds.there;
              shows = v.holds.shows;
              heap_sound = v.holds.heap_sound;
              drains = v.holds.drains;
              same = refl;
            };
            delivered = v.delivered;
          },
          on,
        ))

  pub serves-After :
      (k : ℕ) (all : List (ObjInfo (Option (List ℕ)))) (s : Service) (h : History)
      → After k all true s
      → Returns (After k all true) (handle widen answers ctx loop serves s env h).0
  unfolding handle
  serves-After k all s h (v, on) =
      Returns-map _ (After k all true)
        (serve_queue widen answers ctx.settings s.probed.obj_list s env h).0
        (λ s' r. (r.0, r.1 ∙ on))
        (serve_queue-IsServing widen answers base count size c k all env ctx.settings publishes s h
          v)

  pub message-After :
      (m : BusMessage) (k : ℕ) (all : List (ObjInfo (Option (List ℕ)))) (s : Service) (h : History)
      → After k all true s
      → Returns
          (λ s'.
            IsServing widen base count size c k all s'
            × (s'.running ≡ (if is_error m then false else true)))
          (handle widen answers ctx loop (bus_message m) s env h).0
  unfolding handle
  message-After m k all s h (v, on) =
      >>=-Returns (λ r. r ≡ true)
        (λ s'.
          IsServing widen base count size c k all s'
          × (s'.running ≡ (if is_error m then false else true)))
        (λ _. pure (if is_error m then record s { running = false } else s)) env (bus_call m loop) h
        (bus_call-Returns m loop env h)
        (λ _ _ _. elim (Bool-cases (is_error m)) [
          | inl ends ↦ rw ends (stays-IsServing k all s false v, refl)
          | inr other ↦ rw other (v, on)
        ])

  pub buffer-After :
      (now : ℕ) (b : BatchMeta) (k : ℕ) (all : List (ObjInfo (Option (List ℕ)))) (s : Service)
      (h : History)
      → k + length b.frames < 2 ^ 31
      → AreCounted count b.frames
      → AllSound (last_tensor b.user_metas none) b.frames
      → After k all true s
      → Returns
          (After
            (k + length b.frames)
            (all ++ batch_reports ctx now (last_tensor b.user_metas none) interval b.frames)
            true)
          (handle widen answers ctx loop (buffer now (some b)) s env h).0
  unfolding handle
  buffer-After now b k all s h few counted w (v, on) =
      let tensor = last_tensor b.user_metas none in
      let new = batch_reports ctx now tensor interval b.frames in
      >>=-Returns
        (Processed base ctx now tensor complete env interval nonzero s.probed.pipeline v.pending
          b.frames)
        (After (k + length b.frames) (all ++ new) true) (λ st. pure (record s { probed = st })) env
        (nvanalytics_src_pad_buffer_probe ctx now (some b) s.probed) h
        (nvanalytics_src_pad_buffer_probe-Processed base ctx now tensor complete env interval
          nonzero b v.pending s.probed h set refl w
          (IsLow-HasRoom count size k c s.probed.pipeline b.frames v.sound v.low counted few)
          v.holds)
        (λ st h' r. (
          record {
            pending = v.pending ++ new;
            sound =
                Counts-IsSound count size c s.probed.pipeline st.pipeline b.frames r.counts v.sound;
            own = Counts-IsOwn s.probed.pipeline st.pipeline b.frames r.counts v.own;
            low = Counts-IsLow count k s.probed.pipeline st.pipeline b.frames r.counts v.low;
            holds = r.holds;
            delivered = sent-append s.sent v.pending all new v.delivered;
          },
          on,
        ))

  pub absent-After :
      (now k : ℕ) (all : List (ObjInfo (Option (List ℕ)))) (s : Service) (h : History)
      → After k all true s
      → Returns (After k all true) (handle widen answers ctx loop (buffer now none) s env h).0
  unfolding handle nvanalytics_src_pad_buffer_probe
  absent-After now k all s h v = rw set v
