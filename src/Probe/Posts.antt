-- ===== src/Probe/Posts.antt =====
-- What the probe posts to the thread pool: the due frames, in order, for Redis.
pub mod Objects
pub mod Due
use demo_colombia.Streams.{read_stream, increment}
use demo_colombia.Probe.Invariant.{AreComplete}
use demo_colombia.Probe.Reports.{camera_of}
use demo_colombia.Gst.{◌>>◌, returns, tell, ◌>>=◌}
use demo_colombia.Text.{codes}
use demo_colombia.Base.Int.{to_u32}
use demo_colombia.Base.{
  inr, inl, Bool-cases, refl, ◌==◌, ◌%◌, true, false, Bool, subst, map-append, ℕ, ◌≡◌, sym, ap, ◌∙◌,
  Option, none, some, List, [], ◌∷◌, ◌++◌, map, append-nil, append_assoc, arith, if◌then◌else◌,
}
use demo_colombia.Base.Int.{to_u32, ℤ}
use demo_colombia.Text.{Bytes}
use demo_colombia.Gst.{
  object, buffer_map, buffer_unmap, mat_of_surface, M, Ptr, Env, History, Call, post_send2redis,
  pure, ◌>>=◌,
}
use demo_colombia.Gst.Traces.{Leaves, >>=-Leaves, Leaves-map}
use demo_colombia.ObjInfo.{ObjInfo, FrameInfo}
use demo_colombia.Probe.{
  last_tensor, process_frame, process_frames, send_frame, handle_frame,
  nvanalytics_src_pad_buffer_probe, BatchMeta, look_at_meta, object_info, nothing_seen, Seen,
  ObjectMeta, push_objects, deref, push_metas, UserMeta, ReidTensor, Pipeline, SourceEntry,
  increment, read_stream, AppCtx, FrameMeta, Probed, find_camera, map_frame, count_frame, is_due,
  push_object,
}
use demo_colombia.Probe.Reports.{camera_of}
use demo_colombia.Probe.Frames.{sends}

-- What the probe does with images: a frame was mapped and unmapped, with its image, if it has one, or a
-- frame was posted for Redis.
pub data Event : Type 0 where
  mapped : Ptr → Event
  sent : FrameInfo Ptr → Event

-- The image that was made of the surface since the buffer was mapped last.
abbrev open_image : History → Ptr
open_image [] = none
open_image ((buffer_map, r) ∷ h) = none
open_image ((mat_of_surface n, object p) ∷ h) = p
open_image (_ ∷ h) = open_image h

abbrev event_of : Call → History → List Event
event_of buffer_unmap h = mapped (open_image h) ∷ []
event_of (post_send2redis now camera_id frame_num frame) h =
    sent
      (record { ts_nanoseconds = now; camera_id = camera_id; frame_num = frame_num; frame = frame })
    ∷ []
event_of _ h = []

-- What was done so far, oldest first.
abbrev pub traced : History → List Event
traced [] = []
traced ((c, r) ∷ h) = traced h ++ event_of c h

abbrev pub sent_in : List Event → List (FrameInfo Ptr)
sent_in [] = []
sent_in (mapped i ∷ es) = sent_in es
sent_in (sent x ∷ es) = x ∷ sent_in es

abbrev pub mapped_in : List Event → List Ptr
mapped_in [] = []
mapped_in (mapped i ∷ es) = i ∷ mapped_in es
mapped_in (sent x ∷ es) = mapped_in es

-- The frames posted so far, and the images of the frames that were mapped.
abbrev pub posted : History → List (FrameInfo Ptr)
posted h = sent_in (traced h)

abbrev pub images : History → List Ptr
images h = mapped_in (traced h)

abbrev pub frames_in : Option BatchMeta → List (Option FrameMeta)
frames_in none = []
frames_in (some b) = b.frames

-- The frame of a batch as it is posted, with its image.
abbrev pub due_frame : AppCtx → ℕ → FrameMeta → Ptr → FrameInfo Ptr
due_frame ctx now f image = record {
  ts_nanoseconds = now;
  camera_id = (camera_of ctx.sources f.pad_index).0;
  frame_num = f.frame_num;
  frame = image;
}

-- The due frames of a batch, where the images are those of its frames.
abbrev pub due_frames : AppCtx → ℕ → ℤ → List (Option FrameMeta) → List Ptr → List (FrameInfo Ptr)
due_frames ctx now interval [] images_left = []
due_frames ctx now interval (none ∷ fs) images_left = due_frames ctx now interval fs images_left
due_frames ctx now interval (some f ∷ fs) [] = []
due_frames ctx now interval (some f ∷ fs) (i ∷ images_left) =
    if sends interval f
    then due_frame ctx now f i ∷ due_frames ctx now interval fs images_left
    else due_frames ctx now interval fs images_left

module _ (env : Env) where
  -- A routine that posts just these.
  abbrev pub Posts : {A : Type 0} → List Event → M A → Type 0
  Posts new m = (h : History) → Leaves (λ _ h'. traced h' ≡ traced h ++ new) (m env h)

  pub >>=-Posts :
      {A B : Type 0} (m : M A) (f : A → M B) (new rest : List Event)
      → Posts new m
      → ((a : A) → Posts rest (f a))
      → Posts (new ++ rest) (m >>= f)
  >>=-Posts m f new rest p q h =
      >>=-Leaves (λ _ h'. traced h' ≡ traced h ++ new)
        (λ _ h'. traced h' ≡ traced h ++ (new ++ rest)) f env m h (p h)
        (λ a h' e.
          Leaves-map _ (λ _ k. traced k ≡ traced h ++ (new ++ rest)) (f a env h')
            (λ b k e'. e' ∙ ap (λ l. l ++ rest) e ∙ append_assoc (traced h) new rest) (q a h'))

  pub quiet : {A : Type 0} (a : A) → Posts [] (pure a)
  quiet a h = sym (append-nil (traced h))

  pub map_frame-mapped :
      (ctx : AppCtx) (f : FrameMeta) (h : History)
      → Leaves (λ image h'. traced h' ≡ traced h ++ mapped image ∷ []) (map_frame ctx f env h)
  unfolding map_frame
  map_frame-mapped ctx f h = ground (arith, append-nil (traced h))

  pub count_frame-Posts : (i : ℕ) (p : Pipeline) → Posts [] (count_frame i p)
  unfolding count_frame read_stream increment
  count_frame-Posts i p h = ground (arith, append-nil (traced h))

  pub is_due-Posts : (num interval : ℤ) → Posts [] (is_due num interval)
  unfolding is_due
  is_due-Posts num interval h = ground (arith, append-nil (traced h))

  pub find_camera-Posts : (ss : List SourceEntry) (pad : ℕ) → Posts [] (find_camera ss pad)
  unfolding find_camera
  find_camera-Posts [] pad h = sym (append-nil (traced h))
  find_camera-Posts (s ∷ ss) pad h =
      ground (arith, append-nil (traced h), find_camera-Posts ss pad h)

  pub push_object-Posts :
      (o : ObjInfo (Option (List ℕ))) (st : Probed) → Posts [] (push_object o st)
  unfolding push_object
  push_object-Posts o st h = ground (arith, append-nil (traced h))

  pub deref-Posts : (m : Option UserMeta) → Posts [] (deref m)
  deref-Posts none h = tt
  deref-Posts (some m) h = sym (append-nil (traced h))

  pub find_camera_found :
      (ss : List SourceEntry) (pad : ℕ) (h : History)
      → AreComplete ss
      → find_camera ss pad env h ≡ (returns (camera_of ss pad), h)
  unfolding find_camera
  find_camera_found [] pad h c = refl
  find_camera_found (s ∷ ss) pad h (i, c, d, cs) = ground (arith, find_camera_found ss pad h cs)
