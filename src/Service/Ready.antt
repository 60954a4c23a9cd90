-- ===== src/Service/Ready.antt =====
-- What `main` has made when the main loop starts, and that the loop then serves.
use demo_colombia.Base.{
  ℕ, zero, suc, ◌+◌, ◌<◌, ◌≡◌, refl, sym, ap, subst, ◌∙◌, Bool, true, false, some, List, [], ◌∷◌,
  length, is_some, get_elem?, if◌then◌else◌, arith,
}
use demo_colombia.Text.{Bytes, codes}
use demo_colombia.Gst.{
  M, Ptr, Env, History, Settings, pure, ◌>>=◌, ◌>>◌, ask, tell, attempt, or_throw, gst_init,
  main_loop_new, thread_pool_new,
}
use demo_colombia.Gst.Ensures.{Ensures, >>=-Ensures, Ensures-any, Ensures-both, Ensures-of_Returns}
use demo_colombia.Pipeline.{Pipeline, StreamSourceInfo}
use demo_colombia.Streams.{stream_at, flat}
use demo_colombia.Streams.Invariant.{HasSettings}
use demo_colombia.Elements.Construct.{empty_cells, new_pipeline}
use demo_colombia.Elements.New.{IsNew, new_pipeline-IsNew}
use demo_colombia.Probe.{SourceEntry, AppCtx}
use demo_colombia.Probe.Invariant.{AreComplete}
use demo_colombia.Frames.{prepare_output_directory}
use demo_colombia.Service.{
  pool_size, prepare_saving, connect_redis, connect_broker, add_sources, start_service,
}
use demo_colombia.Service.Startup.{AreEntries, IsStarted, add_sources-IsStarted}
use demo_colombia.Service.Filled.{AreInOrder, IsFilled, add_sources-IsFilled}
use demo_colombia.Service.Main.{World, Options, Start, prepare, build, start}

-- The context has these settings and sources.
abbrev pub HasFiles : Settings → List SourceEntry → AppCtx → Type 0
HasFiles c ss ctx = (ctx.settings ≡ c) × (ctx.sources ≡ ss)

length-empty_cells : (n : ℕ) → length (empty_cells n) ≡ n
length-empty_cells zero = refl
length-empty_cells (suc n) = ap suc (length-empty_cells n)

nothing_there : (n i : ℕ) {s : StreamSourceInfo} → flat (get_elem? (empty_cells n) i) ≡ some s → ⊥
nothing_there zero i e = cc
nothing_there (suc n) zero e = cc
nothing_there (suc n) (suc i) e = nothing_there n i e

module _ (c : Settings) (max : ℕ) (p : Pipeline) (env : Env) (v : IsNew env c max p) where
  empty : (i : ℕ) {s : StreamSourceInfo} → stream_at p i ≡ some s → ⊥
  empty i {s} e = nothing_there max i (subst (λ l. flat (get_elem? l i) ≡ some s) v.1.2 e)

  pub IsNew-IsStarted : IsStarted max c 0 p
  IsNew-IsStarted = record {
    sized = ap length v.1.2 ∙ length-empty_cells max;
    configured = v.1.0;
    counted = omega (arith, v.1.1);
    watched = λ i s e. absurd (empty i e);
  }

  IsNew-IsFilled : IsFilled 0 p
  IsNew-IsFilled = record {
    own = λ i s e. absurd (empty i e);
    unseen = λ i s e. absurd (empty i e);
    few = omega (arith, v.1.1);
    filled = λ e i lt. absurd (omega arith);
  }

pub AreEntries-AreComplete :
    (size : ℕ) (ss : List SourceEntry) → AreEntries size ss → AreComplete ss
AreEntries-AreComplete size [] w = tt
AreEntries-AreComplete size (s ∷ ss) (w, ws) = (
  ap is_some w.pad_index.1,
  ap is_some w.camera_id.1,
  ap is_some w.description.1,
  AreEntries-AreComplete size ss ws,
)

-- Saving changes neither settings nor sources.
prepare_saving-HasFiles :
    (c : Settings) (ss : List SourceEntry) (ctx : AppCtx) (env : Env) (h : History)
    → HasFiles c ss ctx
    → Ensures (HasFiles c ss) (prepare_saving ctx env h).0
unfolding prepare_saving
prepare_saving-HasFiles c ss ctx env h v = saving ctx.save_frames
  where
    dir : M Bytes
    dir = or_throw (ctx.settings.as_text (codes "output-directory" ∷ []))

    result : Bool → M AppCtx
    result prepared = pure (if prepared then ctx else record ctx { save_frames = false })

    result-HasFiles :
        (prepared : Bool) (h' : History)
        → Unit {0}
        → Ensures (HasFiles c ss) (result prepared env h').0
    result-HasFiles true h' u = v
    result-HasFiles false h' u = v

    made : Bytes → M AppCtx
    made d = prepare_output_directory d (length ctx.sources) >>= result

    saving : (b : Bool) → Ensures (HasFiles c ss) ((if b then dir >>= made else pure ctx) env h).0
    saving false = v
    saving true =
        >>=-Ensures (λ _. Unit {0}) (HasFiles c ss) made env dir h (Ensures-any (dir env h).0)
          (λ d h' _.
            >>=-Ensures (λ _. Unit {0}) (HasFiles c ss) result env
              (prepare_output_directory d (length ctx.sources)) h' (Ensures-any _) result-HasFiles)

from_zero : (ss : List SourceEntry) → 0 + length ss ≡ length ss
from_zero ss = omega arith

-- What remains once the pipeline is built.
abbrev pub launch : AppCtx → Ptr → Ptr → Pipeline → M Start
launch ctx loop mosq p = do
  start_service p loop
  pure (record { ctx = ctx; loop = loop; mosq = mosq; pipeline = p })

module _ (w : World) (o : Options) (config : Bytes) where
  -- What remains once the client of the broker is there.
  abbrev pub assemble : AppCtx → Ptr → Ptr → M Start
  assemble ctx loop mosq = build w o config ctx >>= launch ctx loop mosq

  -- What remains once the context is prepared.
  abbrev pub connect : AppCtx → M Start
  connect ctx = do
    tell gst_init
    loop ← ask main_loop_new
    connect_redis ctx.settings
    mosq ← connect_broker ctx.settings
    assemble ctx loop mosq

module _ (w : World) (o : Options) (config : Bytes) (c : Settings) (ss : List SourceEntry)
    (found : w.load config ≡ some c) (listed : w.load_sources o.streams ≡ some ss)
    (named_file : 0 < length config) (ok : HasSettings c)
    (entries : AreEntries w.max_source_bins ss) (order : AreInOrder 0 ss) (env : Env) where
  pub prepare-HasFiles : (h : History) → Ensures (HasFiles c ss) (prepare w o config env h).0
  unfolding prepare
  prepare-HasFiles h =
      rw (found, listed)
        (>>=-Ensures (λ _. Unit {0}) (HasFiles c ss)
          (λ _. prepare_saving (record { settings = c; sources = ss; save_frames = o.save_frames }))
          env (attempt (thread_pool_new (pool_size o.n_threads w.hardware_concurrency))) _
          (Ensures-any _) (λ _ h' _. prepare_saving-HasFiles c ss _ env h' (refl, refl)))

  -- The streams as the loop over the sources file leaves them.
  abbrev pub AreAdded : Pipeline → Type 0
  AreAdded p = IsStarted w.max_source_bins c (length ss) p × IsFilled (length ss) p

  add_sources-AreAdded :
      (p : Pipeline) (h : History)
      → IsNew env c w.max_source_bins p
      → Ensures AreAdded (add_sources o.use_nvurisrcbin ss p env h).0
  add_sources-AreAdded p h n =
      let r = (add_sources o.use_nvurisrcbin ss p env h).0 in
      Ensures-both (IsStarted w.max_source_bins c (length ss)) (IsFilled (length ss)) r
        (subst (λ k. Ensures (IsStarted w.max_source_bins c k) r) (from_zero ss)
          (Ensures-of_Returns (IsStarted w.max_source_bins c (0 + length ss)) r (
            add_sources-IsStarted w.max_source_bins c ok env o.use_nvurisrcbin ss 0 p h entries
              (IsNew-IsStarted c w.max_source_bins p env n))))
        (subst (λ k. Ensures (IsFilled k) r) (from_zero ss)
          (add_sources-IsFilled env o.use_nvurisrcbin ss 0 p h order
            (IsNew-IsFilled c w.max_source_bins p env n)))

  module _ (Q : Pipeline → Type 0)
      (added : (p : Pipeline) (h : History)
        → IsNew env c w.max_source_bins p
        → Ensures Q (add_sources o.use_nvurisrcbin ss p env h).0) where
    build-Ensures :
        (ctx : AppCtx) (h : History) → HasFiles c ss ctx → Ensures Q (build w o config ctx env h).0
    unfolding build
    build-Ensures ctx h v =
        >>=-Ensures (IsNew env c w.max_source_bins) Q (add_sources o.use_nvurisrcbin ctx.sources)
          env (new_pipeline w.load w.no_settings w.max_source_bins config o.show_sink) h
          (new_pipeline-IsNew env w.load w.no_settings w.max_source_bins config c found named_file
            o.show_sink h)
          (λ p h' n.
            subst (λ l. Ensures Q (add_sources o.use_nvurisrcbin l p env h').0) (sym v.1)
              (added p h' n))

    -- What the main loop starts from, where `Q` holds of the pipeline.
    abbrev IsMade : Start → Type 0
    IsMade a = HasFiles c ss a.ctx × Q a.pipeline

    assemble-IsMade :
        (ctx : AppCtx) (loop mosq : Ptr) (h : History)
        → HasFiles c ss ctx
        → Ensures IsMade (assemble w o config ctx loop mosq env h).0
    assemble-IsMade ctx loop mosq h v =
        >>=-Ensures Q IsMade (launch ctx loop mosq) env (build w o config ctx) h
          (build-Ensures ctx h v)
          (λ p h' a.
            >>=-Ensures (λ _. Unit {0}) IsMade
              (λ _. pure (record { ctx = ctx; loop = loop; mosq = mosq; pipeline = p })) env
              (start_service p loop) h' (Ensures-any _) (λ _ h'' _. (v, a)))

    connect-IsMade :
        (ctx : AppCtx) (h : History)
        → HasFiles c ss ctx
        → Ensures IsMade (connect w o config ctx env h).0
    connect-IsMade ctx h v =
        >>=-Ensures (λ _. Unit {0}) IsMade
          (λ loop.
            connect_redis ctx.settings
            >> (connect_broker ctx.settings >>= assemble w o config ctx loop))
          env (ask main_loop_new) _ tt
          (λ loop h' _.
            >>=-Ensures (λ _. Unit {0}) IsMade
              (λ _. connect_broker ctx.settings >>= assemble w o config ctx loop) env
              (connect_redis ctx.settings) h' (Ensures-any _)
              (λ _ h'' _.
                >>=-Ensures (λ _. Unit {0}) IsMade (assemble w o config ctx loop) env
                  (connect_broker ctx.settings) h'' (Ensures-any _)
                  (λ mosq k _. assemble-IsMade ctx loop mosq k v)))

    pub start-Ensures :
        (h : History) → Ensures (λ a. HasFiles c ss a.ctx × Q a.pipeline) (start w o config env h).0
    unfolding start
    start-Ensures h =
        >>=-Ensures (HasFiles c ss) IsMade (connect w o config) env (prepare w o config) h
          (prepare-HasFiles h) connect-IsMade

  -- What the main loop starts from.
  abbrev pub IsReady : Start → Type 0
  IsReady a = HasFiles c ss a.ctx × AreAdded a.pipeline

  pub start-IsReady : (h : History) → Ensures IsReady (start w o config env h).0
  start-IsReady h = start-Ensures AreAdded add_sources-AreAdded h
