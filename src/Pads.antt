-- ===== src/Pads.antt =====
-- perception/src/Pipeline.cpp: `connect_src_sink_pads` and `connect_muxer_src_pads`, which link a pad
-- requested by name to the static pad of another element.
pub mod Balance
use demo_colombia.Base.{Bool, true, false, none, some, ◌++◌, if◌then◌else◌, is_some}
use demo_colombia.Base.Int.{ℤ, to_u32, is_negative}
use demo_colombia.Text.{Bytes, codes, decimal, snprintf}
use demo_colombia.Gst.{
  Ptr, M, pure, ◌>>=◌, ◌>>◌, ask, ask_flag, tell, get_static_pad, request_pad_simple, pad_link,
  object_unref,
}

-- `g_snprintf(pad_name, 15, "src_%u", pad_index)`
unfoldable pub src_pad_name : ℤ → Bytes
unfolding decimal snprintf
src_pad_name i = snprintf 15 (codes "src_" ++ decimal (to_u32 i))

-- `g_snprintf(pad_name, 15, "sink_%u", pad_index)`
unfoldable pub sink_pad_name : ℤ → Bytes
unfolding decimal snprintf
sink_pad_name i = snprintf 15 (codes "sink_" ++ decimal (to_u32 i))

-- `pad_index` is -1 where the caller leaves it out.
unfoldable pub connect_src_sink_pads : Ptr → Ptr → ℤ → M Bool
connect_src_sink_pads src sink pad_index = do
  let pad_name = src_pad_name pad_index
  src_pad ←
      (if is_negative pad_index
        then ask (request_pad_simple src (codes "src_%u"))
        else ask (request_pad_simple src pad_name))
  if is_some src_pad
      then (do
        sink_pad ← ask (get_static_pad sink (codes "sink"))
        linked ← ask_flag (pad_link src_pad sink_pad)
        if linked
            then (do tell (object_unref sink_pad); tell (object_unref src_pad); pure true)
            else (do tell (object_unref sink_pad); pure false))
      else pure false

unfoldable pub connect_muxer_src_pads : Ptr → Ptr → ℤ → M Bool
connect_muxer_src_pads muxer src pad_index = do
  sink_pad ←
      (if is_negative pad_index
        then ask (request_pad_simple muxer (codes "sink_%u"))
        else ask (request_pad_simple muxer (sink_pad_name pad_index)))
  if is_some sink_pad
      then (do
        src_pad ← ask (get_static_pad src (codes "src"))
        linked ← ask_flag (pad_link src_pad sink_pad)
        if linked
            then (do tell (object_unref sink_pad); tell (object_unref src_pad); pure true)
            else (do tell (object_unref src_pad); tell (object_unref sink_pad); pure false))
      else pure false
