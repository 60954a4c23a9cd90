-- ===== src/Service/Safety.antt =====
-- The start of the program, followed through its exceptions.
use demo_colombia.Base.{◌+◌, ◌<◌, ◌≡◌, sym, subst, some, List, length, arith}
use demo_colombia.Text.{Bytes}
use demo_colombia.Service.Counted.{Connects, add_sources-counts}
use demo_colombia.Gst.{Ptr, Env, History, Settings, pure, ◌>>=◌, attempt, thread_pool_new}
use demo_colombia.Gst.Ensures.{Ensures, Ensures-map}
use demo_colombia.Gst.Safety.{
  Defined, >>=-Defined, Defined-of_Ensures, Defined-of_Returns, Defined-any, IsSafe, >>=-IsSafe,
}
use demo_colombia.Pipeline.{Pipeline}
use demo_colombia.Streams.Invariant.{HasSettings}
use demo_colombia.Elements.Construct.{new_pipeline}
use demo_colombia.Elements.New.{IsNew, new_pipeline-IsNew}
use demo_colombia.Elements.Building.{AreShortLines, new_pipeline-IsSafe}
use demo_colombia.Probe.{SourceEntry, AppCtx}
use demo_colombia.Service.{
  prepare_saving, connect_redis, connect_broker, add_sources, start_service, pool_size,
}
use demo_colombia.Service.Startup.{AreEntries, add_sources-IsStarted}
use demo_colombia.Service.Filled.{AreInOrder}
use demo_colombia.Service.Main.{World, Options, prepare, build, start}
use demo_colombia.Service.Ready.{
  launch, assemble, connect, IsNew-IsStarted, prepare-HasFiles, HasFiles, start-Ensures,
}
use demo_colombia.Service.Connecting.{
  prepare_saving-IsSafe, connect_redis-IsSafe, connect_broker-IsSafe, start_service-IsSafe,
}

module _ (w : World) (o : Options) (config : Bytes) (c : Settings) (ss : List SourceEntry)
    (found : w.load config ≡ some c) (listed : w.load_sources o.streams ≡ some ss)
    (named_file : 0 < length config) (few : length config < 4096) (ok : HasSettings c)
    (entries : AreEntries w.max_source_bins ss) (order : AreInOrder 0 ss) (env : Env)
    (short : AreShortLines env) where
  prepare-IsSafe : IsSafe env (prepare w o config)
  unfolding prepare
  prepare-IsSafe h =
      rw (found, listed)
        (>>=-IsSafe env (attempt (thread_pool_new (pool_size o.n_threads w.hardware_concurrency)))
          (λ _. prepare_saving (record { settings = c; sources = ss; save_frames = o.save_frames }))
          (λ h'. ground arith) (λ _. prepare_saving-IsSafe env _) _)

  build-IsSafe :
      (ctx : AppCtx) (h : History)
      → HasFiles c ss ctx
      → Defined (λ _. Unit {0}) (build w o config ctx env h).0
  unfolding build
  build-IsSafe ctx h v =
      >>=-Defined (IsNew env c w.max_source_bins) (λ _. Unit {0})
        (add_sources o.use_nvurisrcbin ctx.sources) env
        (new_pipeline w.load w.no_settings w.max_source_bins config o.show_sink) h
        (Defined-of_Ensures (IsNew env c w.max_source_bins) _
          (new_pipeline-IsNew env w.load w.no_settings w.max_source_bins config c found named_file
            o.show_sink h)
          (new_pipeline-IsSafe env short w.load w.no_settings w.max_source_bins config o.show_sink
            few h))
        (λ p h' n.
          subst (λ l. Defined (λ _. Unit {0}) (add_sources o.use_nvurisrcbin l p env h').0)
            (sym v.1)
            (Defined-any _ (add_sources o.use_nvurisrcbin ss p env h').0 (
              Defined-of_Returns _ (add_sources o.use_nvurisrcbin ss p env h').0 (
                add_sources-IsStarted w.max_source_bins c ok env o.use_nvurisrcbin ss 0 p h' entries
                  (IsNew-IsStarted c w.max_source_bins p env n)))))

  start-IsSafe : IsSafe env (start w o config)
  unfolding start
  start-IsSafe h =
      >>=-Defined (HasFiles c ss) (λ _. Unit {0}) (connect w o config) env (prepare w o config) h
        (Defined-of_Ensures (HasFiles c ss) (prepare w o config env h).0
          (prepare-HasFiles w o config c ss found listed named_file ok entries order env h)
          (prepare-IsSafe h))
        connect-IsSafe
    where
      assemble-IsSafe :
          (ctx : AppCtx) (loop mosq : Ptr) (h' : History)
          → HasFiles c ss ctx
          → Defined (λ _. Unit {0}) (assemble w o config ctx loop mosq env h').0
      assemble-IsSafe ctx loop mosq h' v =
          >>=-Defined (λ _. Unit {0}) (λ _. Unit {0}) (launch ctx loop mosq) env
            (build w o config ctx) h' (build-IsSafe ctx h' v)
            (λ p k _.
              >>=-IsSafe env (start_service p loop)
                (λ _. pure (record { ctx = ctx; loop = loop; mosq = mosq; pipeline = p }))
                (start_service-IsSafe env p loop) (λ _ k'. tt) k)

      connect-IsSafe :
          (ctx : AppCtx) (h' : History)
          → HasFiles c ss ctx
          → Defined (λ _. Unit {0}) (connect w o config ctx env h').0
      connect-IsSafe ctx h' v =
          >>=-Defined (λ _. Unit {0}) (λ _. Unit {0})
            (λ _. connect_broker ctx.settings >>= assemble w o config ctx _) env
            (connect_redis ctx.settings) _ (connect_redis-IsSafe env ctx.settings _)
            (λ _ k _.
              >>=-Defined (λ _. Unit {0}) (λ _. Unit {0}) (assemble w o config ctx _) env
                (connect_broker ctx.settings) k (connect_broker-IsSafe env ctx.settings k)
                (λ mosq k' _. assemble-IsSafe ctx _ mosq k' v))

  counted_here :
      Connects env
      → (p : Pipeline) (h : History) → IsNew env c w.max_source_bins p
      → Ensures (λ p'. p'.num_sources ≡ length ss) (add_sources o.use_nvurisrcbin ss p env h).0
  counted_here connects p h n =
      Ensures-map (λ p'. p'.num_sources ≡ p.num_sources + length ss)
        (λ p'. p'.num_sources ≡ length ss) (add_sources o.use_nvurisrcbin ss p env h).0
        (λ p' e. omega (arith, e, n.1.1)) (add_sources-counts env connects o.use_nvurisrcbin ss p h)

  -- The start leaves every source counted, or throws.
  pub start-Defined :
      (h : History)
      → Connects env
      → Defined (λ a. a.pipeline.num_sources ≡ length ss) (start w o config env h).0
  start-Defined h connects =
      let r = (start w o config env h).0 in
      Defined-of_Ensures (λ a. a.pipeline.num_sources ≡ length ss) r
        (Ensures-map _ (λ a. a.pipeline.num_sources ≡ length ss) r (λ a v. v.1)
          (start-Ensures w o config c ss found listed named_file ok entries order env
            (λ p. p.num_sources ≡ length ss) (counted_here connects) h))
        (start-IsSafe h)
