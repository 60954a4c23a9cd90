-- ===== src/Probe.antt =====
-- perception/src/perception.cpp: `nvanalytics_src_pad_buffer_probe`, which sees every batch of frames
-- after the analytics. It counts the frames of each stream, posts due frames to the thread pool and
-- pushes what was seen of the objects in due frames into the queue of the broker's thread.
pub mod Reports
pub mod Invariant
pub mod Objects
pub mod Frames
pub mod Batch
pub mod Watched
pub mod Posts
pub mod Stored
pub use demo_colombia.Metadata.{
  SourceEntry, AppCtx, UserMeta, analytics, object_reid, other_meta, ObjectMeta, FrameMeta,
  ReidTensor, BatchUserMeta, batch_reid, other_batch_meta, BatchMeta, Probed, Seen, nothing_seen,
}
use demo_colombia.Base.{
  ℕ, zero, suc, ◌+◌, ◌*◌, ◌%◌, ◌^◌, Bool, true, false, Option, none, some, List, [], ◌∷◌, ◌++◌,
  ◌&&◌, ◌==◌, ltb, if◌then◌else◌, not, is_some, drop,
}
use demo_colombia.Base.Int.{ℤ, pos, negsuc, to_u32, to_i32}
use demo_colombia.Text.{Bytes, codes}
use demo_colombia.Gst.{
  Ptr, M, Settings, pure, undefined_behaviour, ◌>>=◌, ◌>>◌, ask, ask_flag, tell, or_throw, try_or,
  buffer_map, buffer_unmap, surface_map, surface_sync, mat_of_surface, post_save_frame,
  post_send2redis,
}
use demo_colombia.Pipeline.{Pipeline}
use demo_colombia.Streams.{read_stream, write_stream, increment}
use demo_colombia.ObjInfo.{ObjInfo, Heap, construct, destroy}
use demo_colombia.ObjInfo.Queue.{enqueue}

-- The last tensor in the batch's user metas.
unfoldable pub last_tensor : List (Option BatchUserMeta) → Option ReidTensor → Option ReidTensor
last_tensor [] tensor = tensor
last_tensor (some (batch_reid t) ∷ ms) tensor = last_tensor ms t
last_tensor (some other_batch_meta ∷ ms) tensor = last_tensor ms tensor
last_tensor (none ∷ ms) tensor = last_tensor ms tensor

-- The camera of a pad, empty if the sources file has none.
unfoldable pub find_camera : List SourceEntry → ℕ → M (Bytes × Bytes)
find_camera [] pad = pure ([], [])
find_camera (s ∷ ss) pad = do
  i ← or_throw s.pad_index
  if to_u32 i == pad
      then (do
        camera_id ← or_throw s.camera_id
        description ← or_throw s.description
        pure (camera_id, description))
      else find_camera ss pad

-- The embedding with that index; the product is one of 32-bit unsigned numbers.
unfoldable pub pick_embedding : Option ReidTensor → ℤ → Seen → Seen
pick_embedding (some t) (pos i) seen =
    if ltb 0 t.num_filled
    then record seen {
      num_elements = t.feature_size;
      embeddings = some (drop (i * t.feature_size % 2 ^ 32) t.features);
    }
    else seen
pick_embedding (some t) (negsuc i) seen = seen
pick_embedding none i seen = seen

unfoldable pub look_at_meta : Option ReidTensor → UserMeta → Seen → Seen
unfolding pick_embedding
look_at_meta tensor (analytics roi_status) seen = record seen {
  roi_list = seen.roi_list ++ roi_status;
}
look_at_meta tensor (object_reid i) seen = pick_embedding tensor i seen
look_at_meta tensor other_meta seen = seen

-- The arguments of the constructor; the object's id is cut to 32 bits.
abbrev pub object_info :
    ℕ → Bytes × Bytes → FrameMeta → ObjectMeta → Seen → ObjInfo (Option (List ℕ))
object_info now camera f o seen = record {
  ts_nanoseconds = now;
  camera_id = camera.0;
  description = camera.1;
  muxer_pad_index = to_i32 f.pad_index;
  frame_num = f.frame_num;
  class_id = o.class_id;
  object_id = o.object_id % 2 ^ 32;
  confidence = o.confidence;
  bbox_top = o.top;
  bbox_left = o.left;
  bbox_width = o.width;
  bbox_height = o.height;
  embeddings_size = seen.num_elements;
  embeddings = seen.embeddings;
  roi = seen.roi_list;
}

-- The object is made, pushed if there is a queue, and its local variable ends. A fault is undefined.
unfoldable pub push_object : ObjInfo (Option (List ℕ)) → Probed → M Probed
push_object o st = elim st.obj_list [
  | none ↦ elim (construct o st.heap) [
    | none ↦ undefined_behaviour
    | some (x, h) ↦ elim (destroy x h) [
      | none ↦ undefined_behaviour
      | some h' ↦ pure (record st { heap = h' })
    ]
  ]
  | some q ↦ elim (enqueue o q st.heap) [
    | none ↦ undefined_behaviour
    | some (q', h') ↦ pure (record st { obj_list = some q'; heap = h' })
  ]
]

abbrev pub deref : Option UserMeta → M UserMeta
deref = elim [ Option.none ↦ undefined_behaviour | Option.some m ↦ pure m ]

-- The loop over the user metas of an object in a due frame: each pushes the object once, with what was
-- seen up to it.
unfoldable pub push_metas :
    AppCtx
    → ℕ
    → Option ReidTensor
    → FrameMeta
    → ObjectMeta
    → List (Option UserMeta)
    → Seen
    → Probed
    → M Probed
push_metas ctx now tensor f o [] seen st = pure st
push_metas ctx now tensor f o (m ∷ ms) seen st = do
  meta ← deref m
  camera ← find_camera ctx.sources f.pad_index
  st' ← push_object (object_info now camera f o (look_at_meta tensor meta seen)) st
  push_metas ctx now tensor f o ms (look_at_meta tensor meta seen) st'

-- The loop over the objects of a due frame; in another frame it does nothing.
unfoldable pub push_objects :
    AppCtx → ℕ → Option ReidTensor → FrameMeta → List (Option ObjectMeta) → Probed → M Probed
unfolding push_metas
push_objects ctx now tensor f [] st = pure st
push_objects ctx now tensor f (none ∷ os) st = push_objects ctx now tensor f os st
push_objects ctx now tensor f (some o ∷ os) st = do
  st' ← push_metas ctx now tensor f o o.user_metas nothing_seen st
  push_objects ctx now tensor f os st'

-- The frame's image, none where the buffer is not mapped or the `cv::Mat` cannot be made; it is also
-- posted for saving if that is asked for. Exceptions are caught.
unfoldable pub map_frame : AppCtx → FrameMeta → M Ptr
map_frame ctx f = do
  mapped ← ask_flag buffer_map
  frame ←
      (if mapped
        then (do
          tell (surface_map f.batch_id)
          tell (surface_sync f.batch_id)
          image ← ask (mat_of_surface f.batch_id)
          if is_some image && ctx.save_frames
              then try_or
                  (do
                    dir ← or_throw (ctx.settings.as_text (codes "output-directory" ∷ []))
                    tell (post_save_frame image dir f.pad_index f.frame_num))
                  tt
              else pure tt
          pure image)
        else pure none)
  tell buffer_unmap
  pure frame

-- `streams_[pad_index].frameCount++`
unfoldable pub count_frame : ℕ → Pipeline → M Pipeline
count_frame i p = do
  s ← read_stream p i
  n ← increment s.frame_count
  pure (write_stream p i (record s { frame_count = n }))

-- `frame_number % frame_interval == 0` on unsigned numbers; a remainder by 0 is undefined.
unfoldable pub is_due : ℤ → ℤ → M Bool
is_due frame_num interval =
    if to_u32 interval == 0
    then undefined_behaviour
    else pure (to_u32 frame_num % to_u32 interval == 0)

-- What is done with a due frame: it goes to Redis, and its objects into the queue.
unfoldable pub send_frame : AppCtx → ℕ → Option ReidTensor → FrameMeta → Ptr → Probed → M Probed
unfolding push_objects
send_frame ctx now tensor f frame st = do
  camera ← find_camera ctx.sources f.pad_index
  tell (post_send2redis now camera.0 f.frame_num frame)
  push_objects ctx now tensor f f.objects st

-- What follows once the frame's image is there, or not.
unfoldable pub handle_frame :
    AppCtx → ℕ → Option ReidTensor → ℤ → FrameMeta → Probed → Ptr → M Probed
unfolding send_frame
handle_frame ctx now tensor interval f st frame = do
  p ← count_frame f.pad_index st.pipeline
  due ← is_due f.frame_num interval
  if due
      then send_frame ctx now tensor f frame (record st { pipeline = p })
      else pure (record st { pipeline = p })

unfoldable pub process_frame : AppCtx → ℕ → Option ReidTensor → ℤ → FrameMeta → Probed → M Probed
unfolding handle_frame
process_frame ctx now tensor interval f st = do
  frame ← map_frame ctx f
  handle_frame ctx now tensor interval f st frame

unfoldable pub process_frames :
    AppCtx → ℕ → Option ReidTensor → ℤ → List (Option FrameMeta) → Probed → M Probed
unfolding process_frame
process_frames ctx now tensor interval [] st = pure st
process_frames ctx now tensor interval (none ∷ fs) st = process_frames ctx now tensor interval fs st
process_frames ctx now tensor interval (some f ∷ fs) st = do
  st' ← process_frame ctx now tensor interval f st
  process_frames ctx now tensor interval fs st'

-- `now` is the time at which the probe is entered. Without batch metadata nothing is done.
unfoldable pub nvanalytics_src_pad_buffer_probe : AppCtx → ℕ → Option BatchMeta → Probed → M Probed
unfolding process_frames last_tensor
nvanalytics_src_pad_buffer_probe ctx now batch st = do
  interval ← or_throw (ctx.settings.as_int (codes "mqtt-broker" ∷ codes "frame-interval" ∷ []))
  elim batch [
    | none ↦ pure st
    | some b ↦ process_frames ctx now (last_tensor b.user_metas none) interval b.frames st
  ]
