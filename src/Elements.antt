-- ===== src/Elements.antt =====
-- perception/src/Pipeline.cpp: the making, configuring and linking of the pipeline's elements, the RTSP
-- servers, the constructor of `Pipeline`, `run` and `stop`.
pub mod Configure
pub mod Link
pub mod Construct
pub mod Presence
pub mod Rest
pub mod New
pub mod Linked
pub mod Safety
pub mod Building
use demo_colombia.Base.{
  ◌==◌, String, ℕ, zero, suc, Bool, true, false, Option, none, some, List, [], ◌∷◌, ◌++◌, ◌&&◌, not,
  ltb, if◌then◌else◌, is_some, length,
}
use demo_colombia.Base.Int.{ℤ, pos, negsuc}
use demo_colombia.Text.{same_bytes, Bytes, codes}
use demo_colombia.Gst.{
  Ptr, M, Settings, Value, int, text, caps, pure, throw, undefined_behaviour, ◌>>=◌, ◌>>◌, ask,
  ask_flag, ask_name, ask_state, tell, or_throw, StateChangeReturn, playing, null_state, set_state,
  get_state, factory_make, pipeline_new, object_set, caps_new_simple, caps_unref, nvds_parse,
  bin_add, link_many, object_unref, parse_gie_type, is_infer_server_type, sprintf_launch,
  rtsp_server_new, rtsp_media_factory_new, rtsp_server_set_service, rtsp_server_get_mount_points,
  rtsp_media_factory_set, rtsp_mount_points_add_factory, rtsp_server_attach,
}
use demo_colombia.Pipeline.{
  Pipeline, StreamSourceInfo, Member, pipeline, streammux, preprocess, nvvidconv, capsfilter0, pgie,
  tracker, nvanalytics, tiler, nvosd, sinktee, sink, nvvidconv_postosd, udp_caps, encoder, rtppay,
  udp_sink, tcp_nvvidconv_postosd, tcp_caps, tcp_encoder, tcp_rtppay, tcp_server_sink, queue0,
  queue1, queue2, queue3, queue4, queue5, queue6, queue7, queue8,
}

-- The members are numbered in the order of the class.
abbrev number : Member → ℕ
number pipeline = 0
number streammux = 1
number preprocess = 2
number nvvidconv = 3
number capsfilter0 = 4
number pgie = 5
number tracker = 6
number nvanalytics = 7
number tiler = 8
number nvosd = 9
number sinktee = 10
number sink = 11
number nvvidconv_postosd = 12
number udp_caps = 13
number encoder = 14
number rtppay = 15
number udp_sink = 16
number tcp_nvvidconv_postosd = 17
number tcp_caps = 18
number tcp_encoder = 19
number tcp_rtppay = 20
number tcp_server_sink = 21
number queue0 = 22
number queue1 = 23
number queue2 = 24
number queue3 = 25
number queue4 = 26
number queue5 = 27
number queue6 = 28
number queue7 = 29
number queue8 = 30

-- Assignment to a member.
abbrev pub set_member : Pipeline → Member → Ptr → Pipeline
set_member p m q = record p { element = λ k. if number k == number m then q else p.element k }

-- A member, its factory, and the name of the element.
abbrev pub Making : Type 0
Making = Member × Bytes × Option Bytes

-- `member = gst_element_factory_make(factory, name)` in turn.
unfoldable pub make_elements : List Making → Pipeline → M Pipeline
make_elements [] p = pure p
make_elements ((m, factory, name) ∷ ms) p = do
  q ← ask (factory_make factory name)
  make_elements ms (set_member p m q)

abbrev pub named : Member → String → String → Making
named m factory name = (m, codes factory, some (codes name))

-- The elements that are always made.
abbrev pub common_elements : Bool → List Making
common_elements is_infer_server =
    named queue0 "queue" "queue0"
    ∷ named queue1 "queue" "queue1"
    ∷ named queue2 "queue" "queue2"
    ∷ named queue3 "queue" "queue3"
    ∷ named queue4 "queue" "queue4"
    ∷ named queue5 "queue" "queue5"
    ∷ named queue6 "queue" "queue6"
    ∷ named queue7 "queue" "queue7"
    ∷ named queue8 "queue" "queue8"
    ∷ named streammux "nvstreammux" "stream-muxer"
    ∷ named preprocess "nvdspreprocess" "preprocess-plugin"
    ∷ (if is_infer_server
        then named pgie "nvinferserver" "primary-nvinference-engine"
        else named pgie "nvinfer" "primary-nvinference-engine")
    ∷ named tracker "nvtracker" "tracker"
    ∷ named nvanalytics "nvdsanalytics" "nvanalytics"
    ∷ named tiler "nvmultistreamtiler" "nvtiler"
    ∷ named nvvidconv "nvvideoconvert" "nvvideo-converter"
    ∷ (capsfilter0, codes "capsfilter", none)
    ∷ named nvosd "nvdsosd" "nv-onscreendisplay"
    ∷ named sinktee "tee" "sinks-tee"
    ∷ []

abbrev pub tcp_front : List Making
tcp_front =
    named tcp_nvvidconv_postosd "nvvideoconvert" "tcp_converter_postosd"
    ∷ named tcp_caps "capsfilter" "filter"
    ∷ []

abbrev pub tcp_back : Bool → List Making
tcp_back true =
    named tcp_encoder "nvv4l2h264enc" "encoder"
    ∷ named tcp_rtppay "rtph264pay" "rtppay"
    ∷ named tcp_server_sink "tcpserversink" "tcp-server-sink"
    ∷ []
tcp_back false =
    named tcp_encoder "nvv4l2h265enc" "encoder"
    ∷ named tcp_rtppay "rtph265pay" "rtppay"
    ∷ named tcp_server_sink "tcpserversink" "tcp-server-sink"
    ∷ []

abbrev pub udp_front : List Making
udp_front =
    named nvvidconv_postosd "nvvideoconvert" "converter_postosd"
    ∷ named udp_caps "capsfilter" "filter"
    ∷ []

abbrev pub udp_back : Bool → List Making
udp_back true =
    named encoder "nvv4l2h264enc" "encoder"
    ∷ named rtppay "rtph264pay" "rtppay"
    ∷ named udp_sink "udpsink" "udpsink"
    ∷ []
udp_back false =
    named encoder "nvv4l2h265enc" "encoder"
    ∷ named rtppay "rtph265pay" "rtppay"
    ∷ named udp_sink "udpsink" "udpsink"
    ∷ []

abbrev pub is_zero : ℤ → Bool
is_zero (pos zero) = true
is_zero _ = false

-- A condition `configs_[…].as<int>()`.
unfoldable pub enabled : Settings → List Bytes → M Bool
enabled c path = do i ← or_throw (c.as_int path); pure (not (is_zero i))

abbrev pub rtsp_sink : List Bytes → List Bytes
rtsp_sink path = codes "rtsp-sink" ∷ path

abbrev pub tcp_sink : List Bytes → List Bytes
tcp_sink path = codes "rtsp-sink" ∷ codes "tcp-sink" ∷ path

abbrev pub udp_branch : List Bytes → List Bytes
udp_branch path = codes "rtsp-sink" ∷ codes "udp-sink" ∷ path

abbrev pub enable : List Bytes
enable = codes "enable" ∷ []

-- Whether the encoding of a branch is H264.
unfoldable pub is_h264 : Settings → (List Bytes → List Bytes) → M Bool
is_h264 c branch = do
  name ← or_throw (c.as_text (branch (codes "rtsp-server" ∷ codes "encoding-name" ∷ [])))
  pure (same_bytes name (codes "H264"))

-- Code that runs only for the branches that are enabled, each given the result before it.
abbrev pub per_branch : {A : Type 0} → Settings → (A → M A) → (A → M A) → A → M A
per_branch c tcp udp a = do
  any ← enabled c (rtsp_sink enable)
  if any
      then (do
        use_tcp ← enabled c (tcp_sink enable)
        b ← (if use_tcp then tcp a else pure a)
        use_udp ← enabled c (udp_branch enable)
        if use_udp then udp b else pure b)
      else pure a

-- The elements of one branch; its encoding is read after the first two are made.
unfoldable pub make_branch :
    Settings
    → (List Bytes → List Bytes)
    → List Making
    → (Bool → List Making)
    → Pipeline
    → M Pipeline
unfolding make_elements
make_branch c branch front back p = do
  q ← make_elements front p
  h264 ← is_h264 c branch
  make_elements (back h264) q

-- The first part of `create_pipeline_elements`.
unfoldable pub create_elements : Pipeline → M Pipeline
unfolding make_branch
create_elements p = do
  p₁ ← make_elements (common_elements p.is_infer_server) p
  p₂ ←
      per_branch p.configs (make_branch p.configs tcp_sink tcp_front tcp_back)
        (make_branch p.configs udp_branch udp_front udp_back) p₁
  make_elements
      ((if p.show_sink
          then named sink "nveglglessink" "nvvideo-renderer"
          else named sink "fakesink" "nvvideo-renderer")
        ∷ [])
      p₂
