-- ===== src/Service/Whole.antt =====
-- The program from the files to the end of its main loop.
use demo_colombia.Base.{
  ℕ, ◌≡◌, refl, sym, ap, subst, ◌∙◌, false, Option, none, some, List, [], ◌∷◌, length, ◌==◌, ◌<◌,
  arith,
}
use demo_colombia.Base.Int.{ℤ, to_u32}
use demo_colombia.Text.{Bytes, codes}
use demo_colombia.Gst.{Env, History, Settings, pure, ◌>>=◌}
use demo_colombia.Gst.Ensures.{Returns, >>=-Returns, Returns-map, Returns-both, Returns-of_Ensures}
use demo_colombia.Pipeline.{Pipeline}
use demo_colombia.Streams.Invariant.{HasSettings}
use demo_colombia.ObjInfo.Queue.{DrainsTo, destroy_all}
use demo_colombia.Messages.{JsonObject}
use demo_colombia.Broker.{MosqErr}
use demo_colombia.Probe.{SourceEntry}
use demo_colombia.Probe.Invariant.{AreComplete}
use demo_colombia.Service.Startup.{AreEntries, IsStarted}
use demo_colombia.Service.Filled.{AreInOrder, IsFilled}
use demo_colombia.Service.Main.{
  World, Options, Start, Event, at_start, start, main_loop, serve_events, Service,
}
use demo_colombia.Service.Loop.{reports_of, CanPublish, IsServing, IsPaced}
use demo_colombia.Service.Loop.Delivery.{main_loop-Delivers}
use demo_colombia.Service.Ready.{AreEntries-AreComplete, IsReady, start-IsReady}

drains_nothing : (c : ℕ → Option (List ℕ)) → DrainsTo c [] (record { next = 0; cell = c })
unfolding destroy_all
drains_nothing c = (record { next = 0; cell = c }, refl, λ q. refl)

module _ (widen : ℕ → ℕ) (answers : JsonObject → ℕ → MosqErr) (w : World) (o : Options) where
  module _ (config : Bytes) (c : Settings) (ss : List SourceEntry) (interval : ℤ)
      (found : w.load config ≡ some c) (listed : w.load_sources o.streams ≡ some ss)
      (named_file : 0 < length config) (ok : HasSettings c)
      (entries : AreEntries w.max_source_bins ss) (order : AreInOrder 0 ss)
      (nonzero : (to_u32 interval == 0) ≡ false)
      (set : c.as_int (codes "mqtt-broker" ∷ codes "frame-interval" ∷ []) ≡ some interval)
      (publishes : CanPublish c) (env : Env) where
    at_start-IsServing :
        (p : Pipeline)
        → IsStarted w.max_source_bins c (length ss) p
        → IsFilled (length ss) p
        → p.num_sources ≡ length ss
        → IsServing widen (λ q. none) (length ss) w.max_source_bins c 0 [] (at_start p)
    at_start-IsServing p a f n = record {
      pending = [];
      sound = record {
        counted = n;
        sized = a.sized;
        configured = a.configured;
        filled = f.filled n;
        watched = a.watched;
      };
      own = f.own;
      low = λ i s lt e. omega (arith, f.unseen i s e);
      holds = record {
        queue = [];
        there = refl;
        shows = tt;
        heap_sound = λ q lt. refl;
        drains = drains_nothing (λ q. none);
        same = refl;
      };
      delivered = refl;
    }

    abbrev Ready : Start → Type 0
    Ready = IsReady w o config c ss found listed named_file ok entries order env

    -- What the main loop leaves: a sound state with all reports that came, in order.
    abbrev pub Served : List Event → Start × Service → Type 0
    Served events r =
        (k : ℕ) × IsServing widen (λ q. none) (length ss) w.max_source_bins c k
          (reports_of r.0.ctx interval events) r.1

    run_loop-Served :
        (events : List Event) (a : Start) (h : History)
        → IsPaced (length ss) 0 events
        → Ready a
        → a.pipeline.num_sources ≡ length ss
        → Returns
            (λ s. Served events (a, s))
            (main_loop widen answers a.ctx a.loop events (at_start a.pipeline) env h).0
    run_loop-Served events a h paced (v, (b, f)) n =
        main_loop-Delivers widen answers (λ q. none) (length ss) w.max_source_bins c ok a.ctx
          (subst AreComplete (sym v.1) (AreEntries-AreComplete w.max_source_bins ss entries))
          interval nonzero
          (ap (λ d. d.as_int (codes "mqtt-broker" ∷ codes "frame-interval" ∷ [])) v.0 ∙ set)
          (subst CanPublish (sym v.0) publishes) a.loop env events 0 [] (at_start a.pipeline) h
          paced (at_start-IsServing a.pipeline b f n, refl)

    -- From the files to the end of the main loop: if the files hold complete settings, those for the
    -- broker's messages too, an interval that is not 0 modulo 2^32, and sources, whose pad indices are
    -- 0, 1, 2, … in order and fit into the array, and the start of `main` succeeds with every source
    -- counted, then for every order of events whose batches are of these sources and name embeddings
    -- inside their tensors, with fewer than 2^31 frames between two ticks, the main loop ends without an
    -- exception or undefined behaviour, whatever the libraries and the broker answer. The messages that
    -- the broker took, followed by those of the queue, are those of all reports that the batches brought
    -- before the first error on the bus, in order, none lost or sent twice. What `main` does after its
    -- loop is not part of this.
    pub serve_events-Served :
        (events : List Event) (h : History)
        → IsPaced (length ss) 0 events
        → Returns (λ a. a.pipeline.num_sources ≡ length ss) (start w o config env h).0
        → Returns (Served events) (serve_events widen answers w o config events env h).0
    unfolding serve_events
    serve_events-Served events h paced started =
        >>=-Returns (λ a. Ready a × (a.pipeline.num_sources ≡ length ss)) (Served events)
          (λ a.
            main_loop widen answers a.ctx a.loop events (at_start a.pipeline) >>= λ s. pure (a, s))
          env (start w o config) h
          (Returns-both Ready (λ a. a.pipeline.num_sources ≡ length ss) (start w o config env h).0
            (Returns-of_Ensures Ready (start w o config env h).0
              (start-IsReady w o config c ss found listed named_file ok entries order env h)
              (Returns-map (λ a. a.pipeline.num_sources ≡ length ss) (λ _. Unit {0})
                (start w o config env h).0 (λ _ _. tt) started))
            started)
          (λ a h' r.
            >>=-Returns (λ s. Served events (a, s)) (Served events) (λ s. pure (a, s)) env
              (main_loop widen answers a.ctx a.loop events (at_start a.pipeline)) h'
              (run_loop-Served events a h' paced r.0 r.1) (λ s h'' d. d))
