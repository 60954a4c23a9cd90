-- ===== src/Elements/Construct.antt =====
-- perception/src/Pipeline.cpp: the RTSP servers, the constructor and destructor of `Pipeline`, `run`
-- and `stop`. The settings in a file are a parameter, `none` where `YAML::LoadFile` throws.
use demo_colombia.Base.{
  suc, ℕ, zero, Bool, true, Option, none, List, [], ◌∷◌, ltb, if◌then◌else◌, length, is_some,
}
use demo_colombia.Base.Int.{pos}
use demo_colombia.Text.{Bytes, codes}
use demo_colombia.Gst.{
  M, object_set, Settings, int, text, failure, pure, throw, undefined_behaviour, ◌>>=◌, ◌>>◌, ask,
  ask_flag, ask_name, ask_state, tell, or_throw, playing, null_state, set_state, get_state,
  pipeline_new, object_unref, parse_gie_type, is_infer_server_type, sprintf_launch, rtsp_server_new,
  rtsp_media_factory_new, rtsp_server_set_service, rtsp_server_get_mount_points,
  rtsp_media_factory_set, rtsp_mount_points_add_factory, rtsp_server_attach,
}
use demo_colombia.Pipeline.{Pipeline, StreamSourceInfo, pipeline}
use demo_colombia.Elements.{rtsp_sink, per_branch, tcp_sink, udp_branch, set_member}
use demo_colombia.Elements.Configure.{create_pipeline_elements}
use demo_colombia.Elements.Link.{link_pipeline_elements}

-- A setting of the server of a branch.
abbrev server_text : Settings → (List Bytes → List Bytes) → Bytes → M Bytes
server_text c branch key = or_throw (c.as_text (branch (codes "rtsp-server" ∷ key ∷ [])))

-- The launch line is written by `sprintf`, with a format from the settings, into 1024 bytes. The format is
-- taken to convert the arguments that it is given.
unfoldable pub launch_line : Settings → (List Bytes → List Bytes) → M Bytes
launch_line c branch = do
  format ← server_text c branch (codes "pipeline")
  port ← or_throw (c.as_unsigned (branch (codes "rtsp-server" ∷ codes "sink-port" ∷ [])))
  encoding ← server_text c branch (codes "encoding-name")
  line ← ask_name (sprintf_launch format port encoding)
  if ltb (length line) 1024 then pure line else undefined_behaviour

-- The overload with the settings of one branch, which always succeeds.
unfoldable pub create_rtsp_server : Settings → (List Bytes → List Bytes) → M Bool
unfolding launch_line
create_rtsp_server c branch = do
  server ← ask rtsp_server_new
  service ← server_text c branch (codes "rtsp-port")
  tell (rtsp_server_set_service server service)
  mounts ← ask (rtsp_server_get_mount_points server)
  line ← launch_line c branch
  factory ← ask rtsp_media_factory_new
  tell (rtsp_media_factory_set factory (codes "launch") (text line))
  tell (rtsp_media_factory_set factory (codes "buffer-size") (int (pos 165888000)))
  tell (rtsp_media_factory_set factory (codes "shared") (int (pos 0)))
  tell (rtsp_media_factory_set factory (codes "transport-mode") (text (codes "PLAY")))
  rtcp ← or_throw (c.as_int (branch (codes "rtsp-server" ∷ codes "enable-rtcp" ∷ [])))
  tell (rtsp_media_factory_set factory (codes "enable-rtcp") (int rtcp))
  mountpoint ← server_text c branch (codes "mountpoint")
  tell (rtsp_mount_points_add_factory mounts mountpoint factory)
  tell (object_unref mounts)
  tell (rtsp_server_attach server)
  pure true

-- The overload with the settings of the class, which nothing calls.
unfoldable pub create_default_rtsp_server : Settings → M Bool
create_default_rtsp_server c = do
  server ← ask rtsp_server_new
  service ← server_text c rtsp_sink (codes "rtsp-port")
  tell (object_set server ((codes "service", text service) ∷ []))
  mounts ← ask (rtsp_server_get_mount_points server)
  format ← server_text c rtsp_sink (codes "pipeline")
  port ← or_throw (c.as_unsigned (rtsp_sink (codes "rtsp-server" ∷ codes "udp-port" ∷ [])))
  encoding ← server_text c rtsp_sink (codes "encoding-name")
  line ← ask_name (sprintf_launch format port encoding)
  if ltb (length line) 1024
      then (do
        factory ← ask rtsp_media_factory_new
        tell (rtsp_media_factory_set factory (codes "launch") (text line))
        tell (rtsp_media_factory_set factory (codes "shared") (int (pos 1)))
        rtcp ← or_throw (c.as_int (rtsp_sink (codes "rtsp-server" ∷ codes "enable-rtcp" ∷ [])))
        tell (rtsp_media_factory_set factory (codes "enable-rtcp") (int rtcp))
        mountpoint ← server_text c rtsp_sink (codes "mountpoint")
        tell (rtsp_mount_points_add_factory mounts mountpoint factory)
        tell (object_unref mounts)
        tell (rtsp_server_attach server)
        pure true)
      else undefined_behaviour

unfoldable pub create_pipeline_object : Pipeline → M (Pipeline × Bool)
create_pipeline_object p = do
  q ← ask (pipeline_new (codes "pipeline"))
  pure (set_member p pipeline q, is_some q)

-- `max_source_bins` cells without a value.
abbrev pub empty_cells : ℕ → List (Option StreamSourceInfo)
empty_cells zero = []
empty_cells (suc n) = none ∷ empty_cells n

-- The constructor. The members that point to elements have no value before they are assigned.
unfoldable pub new_pipeline : (Bytes → Option Settings) → Settings → ℕ → Bytes → Bool → M Pipeline
new_pipeline load no_settings max_source_bins config_file show_sink =
    if ltb (length config_file) 4096
    then (do
      parsed ← ask_flag (parse_gie_type config_file)
      infer_server ← ask_flag (is_infer_server_type config_file)
      c ←
          (if parsed
            then if ltb 0 (length config_file)
              then or_throw (load config_file)
              else pure no_settings
            else throw)
      per_branch c (λ u. create_rtsp_server c tcp_sink >> pure u)
          (λ u. create_rtsp_server c udp_branch >> pure u) tt
      let p : Pipeline = record {
        config_file = config_file;
        configs = c;
        element = λ m. none;
        is_infer_server = infer_server;
        show_sink = show_sink;
        num_sources = 0;
        streams = empty_cells max_source_bins;
      }
      (p₁, made) ← create_pipeline_object p
      (p₂, created) ← (if made then create_pipeline_elements p₁ else throw)
      linked ← (if created then link_pipeline_elements p₂ else throw)
      if linked then pure p₂ else throw)
    else undefined_behaviour

unfoldable pub destroy_pipeline : Pipeline → M (Unit {0})
destroy_pipeline p = tell (object_unref (p.element pipeline))

-- `g_error` ends the program, which is a throw here.
unfoldable pub run : Pipeline → M (Unit {0})
run p = do
  ask_state (set_state (p.element pipeline) playing)
  reached ← ask_state (get_state (p.element pipeline))
  elim reached [ failure ↦ throw | _ ↦ pure tt ]

unfoldable pub stop : Pipeline → M (Unit {0})
stop p = tell (set_state (p.element pipeline) null_state)
