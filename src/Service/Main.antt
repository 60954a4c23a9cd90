-- ===== src/Service/Main.antt =====
-- perception/src/perception.cpp: `main` and `StreamCheckerTask`. While the main loop runs, the timer,
-- the bus, the pipeline's streaming thread and the broker's thread act in turn: an order of events is
-- an argument. What the files hold and what the broker answers are parameters.
use demo_colombia.Base.{
  ℕ, zero, suc, Bool, true, false, Option, none, some, List, [], ◌∷◌, ◌++◌, if◌then◌else◌, is_some,
}
use demo_colombia.Base.Int.{ℤ, pos, negsuc}
use demo_colombia.Text.{Bytes}
use demo_colombia.Gst.{
  Ptr, M, Settings, pure, undefined_behaviour, ◌>>=◌, ◌>>◌, ask, ask_flag, tell, attempt, or_throw,
  cuda_get_device, cuda_get_device_properties, mutex_init, mutex_trylock, thread_pool_new, gst_init,
  main_loop_new, main_loop_unref, notify_all, join_broker_thread, mosquitto_disconnect,
  mosquitto_destroy, mosquitto_lib_cleanup, source_remove_watch, sleep_ms,
}
use demo_colombia.Pipeline.{Pipeline}
use demo_colombia.Streams.Watchdog.{check_performance}
use demo_colombia.ObjInfo.{ObjInfo, destroy}
use demo_colombia.Messages.{JsonObject, set_mqtt_message}
use demo_colombia.Broker.{MosqErr, Client, send_mqtt_message}
use demo_colombia.Probe.{SourceEntry, AppCtx, BatchMeta, Probed, nvanalytics_src_pad_buffer_probe}
use demo_colombia.Elements.Construct.{new_pipeline, stop}
use demo_colombia.Service.{
  mqtt_broker, pool_size, prepare_saving, connect_redis, connect_broker, add_sources, start_service,
}
use demo_colombia.Service.Bus.{BusMessage, error, bus_call}

-- The flags of the command line.
pub record Options : Type 0 where
  pub help : Bool
  pub n_threads : ℕ
  pub streams : Bytes
  pub use_nvurisrcbin : Bool
  pub save_frames : Bool
  pub show_sink : Bool

-- What the program finds: the contents of files, `none` where `YAML::LoadFile` throws, the node
-- without settings, the hardware's threads, and `MAX_SOURCE_BINS`.
pub record World : Type 0 where
  pub load : Bytes → Option Settings
  pub load_sources : Bytes → Option (List SourceEntry)
  pub no_settings : Settings
  pub hardware_concurrency : ℕ
  pub max_source_bins : ℕ

-- What happens while the main loop runs.
pub data Event : Type 0 where
  tick : Event
  bus_message : BusMessage → Event
  -- a buffer passes the probe at a time
  buffer : ℕ → Option BatchMeta → Event
  -- a round of the broker's thread
  serves : Event

-- The state that the events share: `running` until the main loop is asked to quit, and `sent` the
-- messages that the broker took, oldest first.
pub record Service : Type 0 where
  pub probed : Probed
  pub client : Client
  pub running : Bool
  pub sent : List JsonObject

abbrev pub is_error : BusMessage → Bool
is_error error = true
is_error _ = false

-- The topic, and the quality of service and the flag of each `mosquitto_publish`: where one is missing,
-- the broker's thread throws.
unfoldable pub publish_settings : Settings → M (Unit {0})
publish_settings c = do
  topic ← or_throw (c.as_text (mqtt_broker "topic"))
  qos ← or_throw (c.as_int (mqtt_broker "qos"))
  retained ← or_throw (c.as_bool (mqtt_broker "retained"))
  pure tt

module _ (widen : ℕ → ℕ) (answers : JsonObject → ℕ → MosqErr) where
  -- The front object's message is sent; if that succeeds, the object is popped and destroyed.
  unfoldable pub serve_front : ObjInfo ℕ → List (ObjInfo ℕ) → JsonObject → Service → M Service
  serve_front x q message s =
      let (sent, client) = send_mqtt_message (answers message) s.client in
      if sent
      then elim (destroy x s.probed.heap) [
        | none ↦ undefined_behaviour
        | some h ↦ pure (record s {
          probed = record s.probed { obj_list = some q; heap = h };
          client = client;
          sent = s.sent ++ message ∷ [];
        })
      ]
      else pure (record s { client = client })

  -- With an empty queue the thread waits.
  unfoldable pub serve_queue : Settings → Option (List (ObjInfo ℕ)) → Service → M Service
  unfolding serve_front publish_settings
  serve_queue c none s = undefined_behaviour
  serve_queue c (some []) s = pure s
  serve_queue c (some (x ∷ q)) s = elim (set_mqtt_message widen x s.probed.heap) [
    | none ↦ undefined_behaviour
    | some message ↦ publish_settings c >> serve_front x q message s
  ]

  -- One event.
  unfoldable pub handle : AppCtx → Ptr → Event → Service → M Service
  unfolding serve_queue
  handle ctx loop tick s = do
    r ← check_performance s.probed.pipeline
    pure (record s { probed = record s.probed { pipeline = r.0 } })
  handle ctx loop (bus_message m) s = do
    bus_call m loop
    pure (if is_error m then record s { running = false } else s)
  handle ctx loop (buffer now batch) s = do
    st ← nvanalytics_src_pad_buffer_probe ctx now batch s.probed
    pure (record s { probed = st })
  handle ctx loop serves s = serve_queue ctx.settings s.probed.obj_list s

  -- `g_main_loop_run`: events until the loop is asked to quit. The probe and the broker's thread go on
  -- after that, until the pipeline is stopped and the thread ends; those steps are not modelled here.
  unfoldable pub main_loop : AppCtx → Ptr → List Event → Service → M Service
  unfolding handle
  main_loop ctx loop [] s = pure s
  main_loop ctx loop (e ∷ es) s =
      if s.running then (do s' ← handle ctx loop e s; main_loop ctx loop es s') else pure s

-- What `main` has made when the main loop starts.
pub record Start : Type 0 where
  pub ctx : AppCtx
  pub loop : Ptr
  pub mosq : Ptr
  pub pipeline : Pipeline

-- The devices are looked up, the files read, the pool made and the directory for frames prepared.
unfoldable pub prepare : World → Options → Bytes → M AppCtx
prepare w o config = do
  tell cuda_get_device
  tell cuda_get_device_properties
  settings ← or_throw (w.load config)
  sources ← or_throw (w.load_sources o.streams)
  tell mutex_init
  attempt (thread_pool_new (pool_size o.n_threads w.hardware_concurrency))
  prepare_saving (record { settings = settings; sources = sources; save_frames = o.save_frames })

-- The pipeline with its sources.
unfoldable pub build : World → Options → Bytes → AppCtx → M Pipeline
build w o config ctx = do
  p ← new_pipeline w.load w.no_settings w.max_source_bins config o.show_sink
  add_sources o.use_nvurisrcbin ctx.sources p

-- `main` up to the main loop.
unfoldable pub start : World → Options → Bytes → M Start
unfolding prepare build
start w o config = do
  ctx ← prepare w o config
  tell gst_init
  loop ← ask main_loop_new
  connect_redis ctx.settings
  mosq ← connect_broker ctx.settings
  p ← build w o config ctx
  start_service p loop
  pure (record { ctx = ctx; loop = loop; mosq = mosq; pipeline = p })

-- The client of the broker, if it was made, is disconnected and destroyed.
unfoldable pub disconnect_broker : Ptr → M (Unit {0})
disconnect_broker mosq =
    if is_some mosq
    then (do
      tell (mosquitto_disconnect mosq)
      tell (mosquitto_destroy mosq)
      tell mosquitto_lib_cleanup)
    else pure tt

-- `main` after the main loop, and whether it gets to its end: the join waits for the broker's thread, and
-- `joins` is whether that thread ends, which it does not do from its sleep on an empty queue.
unfoldable pub shut_down : Bool → Ptr → Ptr → Pipeline → M Bool
unfolding disconnect_broker
shut_down joins loop mosq p = do
  tell notify_all
  tell join_broker_thread
  if joins
      then (do
        disconnect_broker mosq
        stop p
        tell source_remove_watch
        tell (main_loop_unref loop)
        pure true)
      else pure false

-- No object and no array is there at first.
abbrev pub no_objects : Pipeline → Probed
no_objects p = record {
  pipeline = p;
  obj_list = some [];
  heap = record { next = 0; cell = λ q. none };
}

abbrev pub at_start : Pipeline → Service
at_start p = record {
  probed = no_objects p;
  client = record { publishes = 0; reconnects = 0 };
  running = true;
  sent = [];
}

module _ (widen : ℕ → ℕ) (answers : JsonObject → ℕ → MosqErr) (w : World) (o : Options) where
  -- `main` to the end of its main loop.
  unfoldable pub serve_events : Bytes → List Event → M (Start × Service)
  unfolding start main_loop
  serve_events config events = do
    a ← start w o config
    s ← main_loop widen answers a.ctx a.loop events (at_start a.pipeline)
    pure (a, s)

  -- The exit code, none where `main` waits for the broker's thread for ever. What the destructors do when
  -- `main` returns is not modelled.
  unfoldable pub serve_file : Bool → Bytes → List Event → M (Option ℤ)
  unfolding serve_events shut_down
  serve_file joins config events = do
    r ← serve_events config events
    ended ← shut_down joins r.0.loop r.0.mosq r.1.probed.pipeline
    pure (if ended then some (pos 0) else none)

  -- `arguments` are those after the program's name, without the flags.
  unfoldable pub main : Bool → List Bytes → List Event → M (Option ℤ)
  unfolding serve_file
  main joins arguments events = if o.help then pure (some (pos 0)) else elim arguments [
    | [] ↦ pure (some (negsuc 0))
    | config ∷ rest ↦ elim rest [
      | [] ↦ serve_file joins config events
      | _ ∷ _ ↦ pure (some (negsuc 0))
    ]
  ]

-- The rounds of the thread that `main` starts and never joins, with `terminate_program`, which nothing
-- sets; whether it has ended.
unfoldable pub stream_checker_task : Bool → ℕ → M Bool
stream_checker_task terminate_program zero = pure terminate_program
stream_checker_task terminate_program (suc rounds) = if terminate_program then pure true else (do
  ask_flag mutex_trylock
  tell (sleep_ms 1000)
  stream_checker_task terminate_program rounds)
