-- ===== src/Elements/Configure.antt =====
-- perception/src/Pipeline.cpp: the rest of `create_pipeline_elements`, which checks that all elements
-- were made and sets their properties.
use demo_colombia.Base.{Bool, true, false, List, [], ◌∷◌, ltb, if◌then◌else◌, length, map, String}
use demo_colombia.Base.Int.{pos}
use demo_colombia.Text.{Bytes, codes}
use demo_colombia.Gst.{
  Ptr, M, Settings, Value, int, text, caps, pure, undefined_behaviour, ◌>>=◌, ◌>>◌, ask, ask_flag,
  tell, or_throw, object_set, caps_new_simple, caps_unref, nvds_parse,
}
use demo_colombia.Source.{all_there}
use demo_colombia.Pipeline.{
  Pipeline, Member, streammux, preprocess, nvvidconv, capsfilter0, pgie, tracker, nvanalytics,
  tiler, nvosd, sinktee, sink, nvvidconv_postosd, udp_caps, encoder, rtppay, udp_sink,
  tcp_nvvidconv_postosd, tcp_caps, tcp_encoder, tcp_rtppay, tcp_server_sink, queue0, queue1, queue2,
  queue3, queue4, queue5, queue6, queue7, queue8,
}
use demo_colombia.Elements.{create_elements, per_branch, tcp_sink, udp_branch}

-- `if (!m) return false;` before `k`.
abbrev pub required : M Bool → M Bool → M Bool
required m k = do ok ← m; if ok then k else pure false

abbrev pub members : Pipeline → List Member → List Ptr
members p ms = map (λ m. p.element m) ms

abbrev pub main_members : List Member
main_members =
    streammux ∷ preprocess ∷ pgie ∷ tracker ∷ nvanalytics ∷ tiler ∷ nvvidconv ∷ capsfilter0 ∷ nvosd
    ∷ sinktee ∷ sink ∷ []

abbrev pub queue_members : List Member
queue_members = queue0 ∷ queue1 ∷ queue2 ∷ queue3 ∷ queue4 ∷ queue5 ∷ queue6 ∷ queue7 ∷ queue8 ∷ []

abbrev pub tcp_members : List Member
tcp_members = tcp_nvvidconv_postosd ∷ tcp_caps ∷ tcp_encoder ∷ tcp_rtppay ∷ tcp_server_sink ∷ []

abbrev pub udp_members : List Member
udp_members = nvvidconv_postosd ∷ udp_caps ∷ encoder ∷ rtppay ∷ udp_sink ∷ []

-- A branch whose code returns true to go on; `false` returns at once.
abbrev pub check_branch : M Bool → Bool → M Bool
check_branch m ok = if ok then m else pure false

-- Whether the elements that the program will use were made.
unfoldable pub check_elements : Pipeline → M Bool
check_elements p =
    if all_there (members p main_members)
    then if all_there (members p queue_members)
      then per_branch p.configs (check_branch (pure (all_there (members p tcp_members))))
          (check_branch (pure (all_there (members p udp_members)))) true
      else pure false
    else pure false

-- `nvds_parse_…(element, config_file, group) == NVDS_YAML_PARSER_SUCCESS`
abbrev pub parses : Pipeline → String → Member → M Bool
parses p group m = ask_flag (nvds_parse (codes group) (p.element m) p.config_file)

-- A caps filter gets its caps, which are then released.
unfoldable pub set_caps : Ptr → String → M (Unit {0})
set_caps element format = do
  filtercaps ← ask (caps_new_simple (codes "video/x-raw(memory:NVMM)") (codes format))
  tell (object_set element ((codes "caps", caps filtercaps) ∷ []))
  tell (caps_unref filtercaps)

-- The property `config-file` from the settings.
abbrev pub set_config_file : Pipeline → Member → String → M (Unit {0})
set_config_file p m section = do
  file ← or_throw (p.configs.as_text (codes section ∷ codes "config-file" ∷ []))
  tell (object_set (p.element m) ((codes "config-file", text file) ∷ []))

abbrev sink_int : Settings → (List Bytes → List Bytes) → String → M (Bytes × Value)
sink_int c branch key = do
  i ← or_throw (c.as_int (branch (codes "sink" ∷ codes key ∷ [])))
  pure (codes key, int i)

abbrev sink_host : Settings → (List Bytes → List Bytes) → M (Bytes × Value)
sink_host c branch = do
  host ← or_throw (c.as_text (branch (codes "sink" ∷ codes "host" ∷ [])))
  pure (codes "host", text host)

unfoldable pub set_bitrate : Settings → (List Bytes → List Bytes) → Ptr → M (Unit {0})
set_bitrate c branch element = do
  bitrate ← or_throw (c.as_int (branch (codes "encoder" ∷ codes "bitrate" ∷ [])))
  tell (object_set element ((codes "bitrate", int bitrate) ∷ []))

unfoldable pub configure_tcp : Pipeline → Bool → M Bool
configure_tcp p ok = do
  set_caps (p.element tcp_caps) "I420"
  set_bitrate p.configs tcp_sink (p.element tcp_encoder)
  host ← sink_host p.configs tcp_sink
  port ← sink_int p.configs tcp_sink "port"
  sync ← sink_int p.configs tcp_sink "sync"
  tell (object_set (p.element tcp_server_sink) (host ∷ port ∷ sync ∷ []))
  pure ok

unfoldable pub configure_udp : Pipeline → Bool → M Bool
configure_udp p ok = do
  set_caps (p.element udp_caps) "I420"
  set_bitrate p.configs udp_branch (p.element encoder)
  host ← sink_host p.configs udp_branch
  port ← sink_int p.configs udp_branch "port"
  async_ ← sink_int p.configs udp_branch "async"
  sync ← sink_int p.configs udp_branch "sync"
  tell (object_set (p.element udp_sink) (host ∷ port ∷ async_ ∷ sync ∷ []))
  pure ok

-- The properties of the sinks, the last to be set.
unfoldable pub configure_sinks : Pipeline → M Bool
configure_sinks p =
    required (if p.show_sink then parses p "egl-sink" sink else pure true)
      (per_branch p.configs (configure_tcp p) (configure_udp p) true)

-- The file's name is copied into 4096 bytes by `sprintf`.
unfoldable pub configure_elements : Pipeline → M Bool
configure_elements p =
    if ltb (length p.config_file) 4096
    then required (parses p "streammux" streammux) (
        set_config_file p preprocess "preprocess"
        >> required (parses p "primary-gie" pgie) (
            required (parses p "tracker" tracker) (
              set_config_file p nvanalytics "nvanalytics"
              >> required (parses p "tiler" tiler) (
                  tell (
                    object_set (p.element nvvidconv)
                      ((codes "nvbuf-memory-type", int (pos 3)) ∷ []))
                  >> (set_caps (p.element capsfilter0) "RGBA"
                      >> required (parses p "osd" nvosd) (configure_sinks p))))))
    else undefined_behaviour

-- The pipeline with its elements, and whether all went well.
unfoldable pub create_pipeline_elements : Pipeline → M (Pipeline × Bool)
create_pipeline_elements p = do
  p' ← create_elements p
  ok ← required (check_elements p') (configure_elements p')
  pure (p', ok)
