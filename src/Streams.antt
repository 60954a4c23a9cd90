-- ===== src/Streams.antt =====
-- perception/src/Pipeline.cpp: `add_source` and `delete_source`, and reads and writes of the array
-- `streams_`.
pub mod Sources
pub mod Watchdog
pub mod Invariant
pub mod Schedule
pub mod Gap
use demo_colombia.Base.{
  ℕ, suc, ◌+◌, ◌-◌, ◌^◌, Bool, true, false, Option, none, some, List, [], ◌∷◌, if◌then◌else◌, ltb,
  is_some, get_elem?, set, length,
}
use demo_colombia.Base.Int.{ℤ, pos, negsuc}
use demo_colombia.Text.{Bytes}
use demo_colombia.Gst.{
  Ptr, M, StateChangeReturn, failure, success, async, no_preroll, pure, undefined_behaviour, ◌>>=◌,
  ◌>>◌, ask, ask_state, tell, bin_add, bin_remove, get_static_pad, release_request_pad,
  pad_send_event, eos, flush_stop, set_state, get_state, null_state, playing, object_unref,
}
use demo_colombia.Pads.{connect_muxer_src_pads, sink_pad_name}
use demo_colombia.Source.{create_source_bin}
use demo_colombia.Pipeline.{
  Pipeline, StreamSourceInfo, StreamResetStates, idle, pipeline, streammux,
}

abbrev pub flat : Option (Option StreamSourceInfo) → Option StreamSourceInfo
flat none = none
flat (some o) = o

abbrev pub stream_at : Pipeline → ℕ → Option StreamSourceInfo
stream_at p i = flat (get_elem? p.streams i)

-- `streams_[i]`: undefined outside the array and in a cell that was never written.
unfoldable pub read_stream : Pipeline → ℕ → M StreamSourceInfo
read_stream p i = elim (stream_at p i) [ none ↦ undefined_behaviour | some s ↦ pure s ]

-- `streams_[i] = s` inside the array.
abbrev pub write_stream : Pipeline → ℕ → StreamSourceInfo → Pipeline
write_stream p i s = record p { streams = set p.streams i (some s) }

-- `++` on an `int`.
unfoldable pub increment : ℕ → M ℕ
increment n = if ltb (n + 1) (2 ^ 31) then pure (n + 1) else undefined_behaviour

abbrev pub new_stream : Bytes → Bytes → ℤ → Bytes → Ptr → StreamSourceInfo
new_stream uri camera_id pad_index description source_bin = record {
  uri = uri;
  camera_id = camera_id;
  pad_index = pad_index;
  description = description;
  frame_count = 0;
  no_frame_count = 0;
  source_bin = source_bin;
  reset = idle;
}

-- A re-added source is set playing, and waited for if that takes time; it is not counted again.
unfoldable pub start_source : Pipeline → Ptr → Bool → M Pipeline
start_source p source_bin true = do
  state_return ← ask_state (set_state source_bin playing)
  elim state_return [
    | async ↦ ask_state (get_state source_bin) >> pure p
    | failure ↦ pure p
    | success ↦ pure p
    | no_preroll ↦ pure p
  ]
start_source p source_bin false = pure (record p { num_sources = p.num_sources + 1 })

-- The new bin joins the pipeline and is linked to the muxer.
unfoldable pub attach_source : Pipeline → Ptr → ℤ → Bool → M Pipeline
unfolding start_source
attach_source p source_bin pad_index readding = do
  tell (bin_add (p.element pipeline) (source_bin ∷ []))
  connected ← connect_muxer_src_pads (p.element streammux) source_bin pad_index
  if connected then start_source p source_bin readding else pure p

-- `streams_[pad_index] = …`, undefined outside the array.
unfoldable pub put_stream : Pipeline → ℤ → StreamSourceInfo → M Pipeline
put_stream p (pos i) s =
    if ltb i (length p.streams) then pure (write_stream p i s) else undefined_behaviour
put_stream p (negsuc i) s = undefined_behaviour

-- What follows the creation of the bin, which may have failed.
unfoldable pub place_source : Pipeline → Bytes → Bytes → ℤ → Bytes → Bool → Ptr → M Pipeline
unfolding attach_source put_stream
place_source p uri camera_id pad_index description readding source_bin =
    if is_some source_bin
    then (do
      p' ← put_stream p pad_index (new_stream uri camera_id pad_index description source_bin)
      attach_source p' source_bin pad_index readding)
    else pure p

unfoldable pub add_source : Pipeline → Bytes → Bytes → ℤ → Bytes → Bool → Bool → M Pipeline
unfolding place_source
add_source p uri camera_id pad_index description use_nvurisrcbin readding = do
  let index = if readding then pad_index else pos p.num_sources
  source_bin ← create_source_bin index uri use_nvurisrcbin p.configs
  place_source p uri camera_id pad_index description readding source_bin

-- The muxer's pad is flushed and released, and the bin leaves the pipeline.
unfoldable pub detach_source : Pipeline → StreamSourceInfo → M (Unit {0})
detach_source p stream = do
  sinkpad ← ask (get_static_pad (p.element streammux) (sink_pad_name stream.pad_index))
  tell (pad_send_event sinkpad eos)
  tell (pad_send_event sinkpad flush_stop)
  tell (release_request_pad (p.element streammux) sinkpad)
  tell (object_unref sinkpad)
  tell (bin_remove (p.element pipeline) stream.source_bin)

unfoldable pub delete_source : Pipeline → StreamSourceInfo → M (Unit {0})
unfolding detach_source
delete_source p stream = do
  state_return ← ask_state (set_state stream.source_bin null_state)
  elim state_return [
    | success ↦ detach_source p stream
    | async ↦ detach_source p stream
    | failure ↦ pure tt
    | no_preroll ↦ pure tt
  ]
