-- ===== src/Pipeline.antt =====
-- perception/include/Pipeline.hpp: the state of the class `Pipeline` and of a stream.
use demo_colombia.Base.{ℕ, Bool, Option, List}
use demo_colombia.Base.Int.{ℤ}
use demo_colombia.Text.{Bytes}
use demo_colombia.Gst.{Ptr, Settings}

-- `StreamResetStates`; `idle` is its `NONE`.
pub data StreamResetStates : Type 0 where
  idle change_state_to_null check_for_state_null initialiting ready : StreamResetStates
  delete_stream waiting add_stream : StreamResetStates

-- The counters are `int`; the program only resets them to 0 and increments them, so they are naturals
-- and an increment at `INT_MAX` is undefined behaviour.
pub record StreamSourceInfo : Type 0 where
  pub uri : Bytes
  pub camera_id : Bytes
  pub pad_index : ℤ
  pub description : Bytes
  pub frame_count : ℕ
  pub no_frame_count : ℕ
  pub source_bin : Ptr
  pub reset : StreamResetStates

-- The `GstElement*` members of the class.
pub data Member : Type 0 where
  pipeline streammux preprocess nvvidconv capsfilter0 pgie tracker nvanalytics : Member
  tiler nvosd sinktee sink : Member
  nvvidconv_postosd udp_caps encoder rtppay udp_sink : Member
  tcp_nvvidconv_postosd tcp_caps tcp_encoder tcp_rtppay tcp_server_sink : Member
  queue0 queue1 queue2 queue3 queue4 queue5 queue6 queue7 queue8 : Member

-- `streams` is the array `streams_`, whose length is `MAX_SOURCE_BINS` of deepstream_config.h. The
-- constructor leaves its cells without a value: `none`.
pub record Pipeline : Type 0 where
  pub config_file : Bytes
  pub configs : Settings
  pub element : Member → Ptr
  pub is_infer_server : Bool
  pub show_sink : Bool
  pub num_sources : ℕ
  pub streams : List (Option StreamSourceInfo)
