-- ===== src/Service.antt =====
-- perception/src/perception.cpp: `main` up to the main loop, by its parts: the arguments, the thread
-- pool, the directory for frames, Redis, the MQTT client, the sources, and the callbacks and threads.
pub mod Startup
pub mod Filled
pub mod Counted
pub mod Bus
pub mod Main
pub mod Loop
pub mod Ready
pub mod Whole
pub mod Connecting
pub mod Safety
use demo_colombia.Base.{
  String, ℕ, zero, suc, ◌+◌, ◌-◌, ◌%◌, ◌^◌, Bool, true, false, Option, none, some, List, [], ◌∷◌,
  ◌++◌, ltb, if◌then◌else◌, length, is_some,
}
use demo_colombia.Base.Int.{ℤ, pos, negsuc, to_i32}
use demo_colombia.Text.{Bytes, codes}
use demo_colombia.Gst.{
  Ptr, M, Settings, Value, int, unsigned, text, pure, ◌>>=◌, ◌>>◌, ask, ask_flag, tell, attempt,
  or_throw, redis_new, mosquitto_lib_init, mosquitto_new, mosquitto_connect, pipeline_get_bus,
  bus_add_watch, object_unref, get_static_pad, pad_add_probe, start_broker_thread,
  start_checker_thread, timeout_add,
}
use demo_colombia.Pipeline.{Pipeline, pipeline, nvanalytics}
use demo_colombia.Streams.{add_source}
use demo_colombia.Probe.{SourceEntry, AppCtx}
use demo_colombia.Frames.{prepare_output_directory}
use demo_colombia.Elements.Construct.{run}

-- The threads in the pool: what the flag asks for, at most one less than the hardware has. Both are
-- compared as 32-bit unsigned numbers; a hardware that says 0 sets no limit.
unfoldable pub pool_size : ℕ → ℕ → ℤ
pool_size n_threads hardware_concurrency =
    let limit = (hardware_concurrency + (2 ^ 32 - 1)) % 2 ^ 32 in
    if ltb limit (n_threads % 2 ^ 32) then to_i32 limit else to_i32 n_threads

-- Frames are saved only if the directory could be prepared.
unfoldable pub prepare_saving : AppCtx → M AppCtx
prepare_saving ctx =
    if ctx.save_frames
    then (do
      dir ← or_throw (ctx.settings.as_text (codes "output-directory" ∷ []))
      prepared ← prepare_output_directory dir (length ctx.sources)
      pure (if prepared then ctx else record ctx { save_frames = false }))
    else pure ctx

abbrev redis : String → List Bytes
redis key = codes "redis" ∷ codes key ∷ []

abbrev pub mqtt_broker : String → List Bytes
mqtt_broker key = codes "mqtt-broker" ∷ codes key ∷ []

-- A text option that is set only if it is not empty.
abbrev pub text_option : String → Bytes → List (Bytes × Value)
text_option name [] = []
text_option name (b ∷ s) = (codes name, text (b ∷ s)) ∷ []

-- The database is chosen only if its number is not negative.
abbrev pub db_option : ℤ → List (Bytes × Value)
db_option (pos n) = (codes "db", int (pos n)) ∷ []
db_option (negsuc n) = []

-- The options of the connection and of the pool of connections, in the order of their reads.
unfoldable pub redis_options : Settings → M (List (Bytes × Value))
redis_options c = do
  host ← or_throw (c.as_text (redis "host"))
  port ← or_throw (c.as_unsigned (redis "port"))
  user ← or_throw (c.as_text (redis "user"))
  password ← or_throw (c.as_text (redis "password"))
  db ← or_throw (c.as_int (redis "db"))
  socket_timeout ← or_throw (c.as_int (redis "socket_timeout"))
  pool ← or_throw (c.as_int (redis "pool_size"))
  wait_timeout ← or_throw (c.as_int (redis "pool_wait_timeout"))
  lifetime ← or_throw (c.as_int (redis "pool_connection_lifetime"))
  pure (
      (codes "host", text host)
      ∷ (codes "port", unsigned port)
      ∷ (text_option "user" user
          ++ (text_option "password" password
              ++ (db_option db
                  ++ (codes "socket_timeout", int socket_timeout)
                    ∷ (codes "size", int pool)
                    ∷ (codes "wait_timeout", int wait_timeout)
                    ∷ (codes "connection_lifetime", int lifetime)
                    ∷ []))))

-- The Redis object is made, and the seconds that data lives there are read.
unfoldable pub connect_redis : Settings → M ℤ
unfolding redis_options
connect_redis c = do
  options ← redis_options c
  attempt (redis_new options)
  or_throw (c.as_int (redis "ttl_sec"))

-- The client of the broker. A connection that fails is only reported, with its host and port.
unfoldable pub connect_broker : Settings → M Ptr
connect_broker c = do
  tell mosquitto_lib_init
  id ← or_throw (c.as_text (mqtt_broker "conn-id"))
  mosq ← ask (mosquitto_new id)
  host ← or_throw (c.as_text (mqtt_broker "host"))
  port ← or_throw (c.as_unsigned (mqtt_broker "port"))
  ttl ← or_throw (c.as_int (mqtt_broker "conn-ttl"))
  tell (mosquitto_connect mosq host port ttl)
  pure mosq

-- One source of the sources file.
unfoldable pub add_entry : Bool → SourceEntry → Pipeline → M Pipeline
add_entry use_nvurisrcbin s p = do
  uri ← or_throw s.uri
  camera_id ← or_throw s.camera_id
  pad_index ← or_throw s.pad_index
  description ← or_throw s.description
  add_source p uri camera_id pad_index description use_nvurisrcbin false

-- The loop over the sources file.
unfoldable pub add_sources : Bool → List SourceEntry → Pipeline → M Pipeline
unfolding add_entry
add_sources use_nvurisrcbin [] p = pure p
add_sources use_nvurisrcbin (s ∷ ss) p = do
  p' ← add_entry use_nvurisrcbin s p
  add_sources use_nvurisrcbin ss p'

-- The watch on the bus, which gets the main loop.
unfoldable pub watch_bus : Pipeline → Ptr → M (Unit {0})
watch_bus p loop = do
  bus ← ask (pipeline_get_bus (p.element pipeline))
  tell (bus_add_watch bus loop)
  tell (object_unref bus)

-- The probe on the analytics' source pad; the pad is released even where it is NULL.
unfoldable pub install_probe : Pipeline → M (Unit {0})
install_probe p = do
  pad ← ask (get_static_pad (p.element nvanalytics) (codes "src"))
  if is_some pad then tell (pad_add_probe pad) else pure tt
  tell (object_unref pad)

-- The threads, the timer of one second, and the start of the pipeline.
unfoldable pub start_service : Pipeline → Ptr → M (Unit {0})
unfolding watch_bus install_probe
start_service p loop = do
  watch_bus p loop
  install_probe p
  tell start_broker_thread
  tell (timeout_add 1000)
  tell start_checker_thread
  run p
