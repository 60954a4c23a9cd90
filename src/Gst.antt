-- ===== src/Gst.antt =====
-- GStreamer, GLib, the DeepStream parsers and the other libraries as the program sees them: calls with arguments and
-- replies. What the libraries answer is a parameter, a function of the whole history of calls, so a
-- theorem about every `Env` is about every behaviour of the libraries. A routine of the program is a
-- value of `M`: it reads the environment, extends the history, and returns, throws or is undefined.
pub mod Ensures
pub mod References
pub mod Safety
pub mod Traces
use demo_colombia.Base.{ℕ, Bool, Option, List, ◌∷◌}
use demo_colombia.Base.Int.{ℤ}
use demo_colombia.Text.{Bytes}

-- A pointer that may be NULL.
abbrev pub Ptr : Type 0
Ptr = Option ℕ

pub data StateChangeReturn : Type 0 where
  failure success async no_preroll : StateChangeReturn

pub data ElementState : Type 0 where
  null_state playing : ElementState

pub data PadEvent : Type 0 where
  eos flush_stop : PadEvent

-- The program's functions that it registers as signal handlers.
pub data Handler : Type 0 where
  on_newpad on_pad_added_handler on_child_added : Handler

pub data Value : Type 0 where
  int : ℤ → Value
  unsigned : ℕ → Value
  text : Bytes → Value
  caps : Ptr → Value

pub data Call : Type 0 where
  bin_new pipeline_new : Bytes → Call
  factory_make : Bytes → Option Bytes → Call
  object_set : Ptr → List (Bytes × Value) → Call
  signal_connect : Ptr → Bytes → Handler → Ptr → Call
  bin_add : Ptr → List Ptr → Call
  bin_remove : Ptr → Ptr → Call
  bin_get_by_name : Ptr → Bytes → Call
  link_many : List Ptr → Call
  ghost_pad_new_no_target : Bytes → Call
  ghost_pad_set_target : Ptr → Ptr → Call
  add_pad : Ptr → Ptr → Call
  get_static_pad request_pad_simple : Ptr → Bytes → Call
  release_request_pad : Ptr → Ptr → Call
  pad_is_linked : Ptr → Call
  pad_link : Ptr → Ptr → Call
  pad_send_event : Ptr → PadEvent → Call
  set_state : Ptr → ElementState → Call
  get_state : Ptr → Call
  object_unref caps_unref : Ptr → Call
  pad_get_current_caps pad_query_caps caps_get_structure caps_get_features : Ptr → Call
  structure_get_name : Ptr → Call
  features_contains : Ptr → Bytes → Call
  pad_get_name : Ptr → Call
  link_pads : Ptr → Bytes → Ptr → Bytes → Call
  caps_new_simple : Bytes → Bytes → Call
  nvds_parse : Bytes → Ptr → Bytes → Call
  -- `std::localtime` as text, and a line appended to a file
  current_timestamp : Call
  append_line : Bytes → Bytes → Call
  -- std::filesystem, OpenCV and redis++, which throw where the flag is false
  remove_all create_directories : Bytes → Call
  cvt_color imencode : Ptr → Call
  imwrite : Bytes → Ptr → Call
  setex : Bytes → ℤ → Ptr → Call
  -- the type of the inference plugin, and the text of `sprintf` with a format, a port and a name
  parse_gie_type is_infer_server_type : Bytes → Call
  sprintf_launch : Bytes → ℕ → Bytes → Call
  -- GStreamer's RTSP server
  rtsp_server_new rtsp_media_factory_new : Call
  rtsp_server_set_service : Ptr → Bytes → Call
  rtsp_server_get_mount_points : Ptr → Call
  rtsp_media_factory_set : Ptr → Bytes → Value → Call
  rtsp_mount_points_add_factory : Ptr → Bytes → Ptr → Call
  rtsp_server_attach : Ptr → Call
  -- the buffer of a probe, the surfaces of a batch, and a `cv::Mat` over a surface
  buffer_map buffer_unmap : Call
  surface_map surface_sync mat_of_surface : ℕ → Call
  -- tasks posted to the thread pool
  post_save_frame : Ptr → Bytes → ℕ → ℤ → Call
  post_send2redis : ℕ → Bytes → ℤ → Ptr → Call
  -- what `main` does about devices, files, threads and the main loop
  cuda_get_device cuda_get_device_properties : Call
  mutex_init mutex_trylock : Call
  thread_pool_new : ℤ → Call
  gst_init main_loop_new : Call
  main_loop_quit main_loop_unref : Ptr → Call
  pipeline_get_bus : Ptr → Call
  bus_add_watch : Ptr → Ptr → Call
  source_remove_watch : Call
  pad_add_probe : Ptr → Call
  start_broker_thread start_checker_thread join_broker_thread notify_all : Call
  timeout_add : ℕ → Call
  sleep_ms : ℕ → Call
  -- messages on the bus
  message_parse_warning message_parse_error : Call
  message_is_stream_eos message_parse_stream_eos : Call
  free_debug free_error : Call
  -- redis++ and libmosquitto; the options that are set, by their names
  redis_new : List (Bytes × Value) → Call
  mosquitto_lib_init mosquitto_lib_cleanup : Call
  mosquitto_new : Bytes → Call
  mosquitto_connect : Ptr → Bytes → ℕ → ℤ → Call
  mosquitto_disconnect mosquitto_destroy : Ptr → Call

pub data Reply : Type 0 where
  object : Ptr → Reply
  flag : Bool → Reply
  state : StateChangeReturn → Reply
  name : Bytes → Reply
  done : Reply

-- The newest call first.
abbrev pub History : Type 0
History = List (Call × Reply)

pub record Env : Type 0 where
  pub pointer : History → Call → Ptr
  pub accepts : History → Call → Bool
  pub changes : History → Call → StateChangeReturn
  pub names : History → Call → Bytes

pub data Outcome (A : Type 0) : Type 0 where
  returns : A → Outcome A
  -- an exception leaves the routine
  throws : Outcome A
  -- undefined behaviour, such as an index outside an array
  undefined : Outcome A

abbrev pub M : Type 0 → Type 0
M A = Env → History → Outcome A × History

abbrev pub pure : {A : Type 0} → A → M A
pure a env h = (returns a, h)

abbrev pub throw : {A : Type 0} → M A
throw env h = (throws, h)

abbrev pub undefined_behaviour : {A : Type 0} → M A
undefined_behaviour env h = (undefined, h)

infixl 5 ◌>>=◌ ◌>>◌
abbrev pub ◌>>=◌ : {A B : Type 0} → M A → (A → M B) → M B
◌>>=◌ m f env h =
    let (o, h') = m env h in
    elim o [ returns a ↦ f a env h' | throws ↦ (throws, h') | undefined ↦ (undefined, h') ]

abbrev pub ◌>>◌ : {A B : Type 0} → M A → M B → M B
m >> k = m >>= λ _. k

-- A call that returns a pointer.
abbrev pub ask : Call → M Ptr
ask c env h = let p = env.pointer h c in (returns p, (c, object p) ∷ h)

-- A call that returns a success flag.
abbrev pub ask_flag : Call → M Bool
ask_flag c env h = let b = env.accepts h c in (returns b, (c, flag b) ∷ h)

abbrev pub ask_state : Call → M StateChangeReturn
ask_state c env h = let r = env.changes h c in (returns r, (c, state r) ∷ h)

abbrev pub ask_name : Call → M Bytes
ask_name c env h = let s = env.names h c in (returns s, (c, name s) ∷ h)

-- A call that throws where the flag is false.
abbrev pub attempt : Call → M (Unit {0})
attempt c env h =
    let b = env.accepts h c in
    (elim b [ Bool.true ↦ returns tt | Bool.false ↦ throws ], (c, flag b) ∷ h)

-- `try { … } catch (...) { … }`, where the handler gives the value.
abbrev pub try_or : {A : Type 0} → M A → A → M A
try_or m a env h =
    let (o, h') = m env h in
    elim o [ returns b ↦ (returns b, h') | throws ↦ (returns a, h') | undefined ↦ (undefined, h') ]

-- A call whose result the program ignores, or that has none.
abbrev pub tell : Call → M (Unit {0})
tell c env h = (returns tt, (c, done) ∷ h)

-- The settings that yaml-cpp reads from the configuration file, by the path of keys. A key that is
-- missing, or a value of another form, makes `as<T>()` throw.
pub record Settings : Type 0 where
  pub as_int : List Bytes → Option ℤ
  pub as_unsigned : List Bytes → Option ℕ
  pub as_text : List Bytes → Option Bytes
  pub as_bool : List Bytes → Option Bool

abbrev pub or_throw : {A : Type 0} → Option A → M A
or_throw = elim [ Option.none ↦ throw | Option.some a ↦ pure a ]
