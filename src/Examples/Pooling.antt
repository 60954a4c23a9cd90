-- ===== src/Examples/Pooling.antt =====
-- The theorems on the frames that are posted to the pool, at a batch and at two tasks.
use demo_colombia.Streams.{read_stream, increment}
use demo_colombia.ObjInfo.{construct, copy_floats, destroy, move_construct}
use demo_colombia.ObjInfo.Queue.{enqueue}
use demo_colombia.Probe.Reports.{camera_of}
use demo_colombia.Probe.Stored.{AreFrames-AreTasks}
use demo_colombia.Probe.{
  process_frames, process_frame, map_frame, handle_frame, count_frame, is_due, send_frame,
  find_camera, push_objects, push_metas, look_at_meta, pick_embedding, push_object, last_tensor,
}
use demo_colombia.Base.{
  ◌⊎◌, ℕ, ◌≡◌, ◌≢◌, refl, inl, inr, Bool, true, false, none, some, List, [], ◌∷◌, arith,
}
use demo_colombia.Base.Int.{ℤ, pos}
use demo_colombia.Text.{codes, decimal_int}
use demo_colombia.Gst.{Ptr, Call, Env, Outcome, returns, throws, undefined, cvt_color}
use demo_colombia.ObjInfo.{FrameInfo}
use demo_colombia.Frames.Pool.{Works, run_pool, stored, key_of}
use demo_colombia.Frames.Pool.Order.{AreTasks, SameTasks, Among, run_pool-order}
use demo_colombia.Probe.{Probed, nvanalytics_src_pad_buffer_probe}
use demo_colombia.Probe.Posts.{posted, images, due_frames, frames_in}
use demo_colombia.Probe.Stored.{AreFrames}
use demo_colombia.Examples.{willing}
use demo_colombia.Examples.Probing.{context, batch, before}

abbrev succeeds : Call → Bool
succeeds (cvt_color none) = false
succeeds _ = true

abbrev working : Env
working = record willing { accepts = λ h c. succeeds c }

working-Works : Works working
working-Works = record {
  converts = λ h i. refl;
  refuses = λ h. refl;
  encodes = λ h i. refl;
  takes = λ h k seconds i few. refl;
}

abbrev image : ℤ → Ptr → FrameInfo Ptr
image n p = record { ts_nanoseconds = 77; camera_id = codes "c1"; frame_num = n; frame = p }

abbrev two : List (FrameInfo Ptr)
two = image (pos 1) (some 8) ∷ image (pos 2) (some 9) ∷ []

abbrev swapped : List (FrameInfo Ptr)
swapped = image (pos 2) (some 9) ∷ image (pos 1) (some 8) ∷ []

two-AreFrames : AreFrames two
unfolding decimal_int
two-AreFrames = (
  omega arith,
  (λ y l c n. elim l [ inl e ↦ cc | inr e ↦ absurd e ]),
  (omega arith, (λ m l c n. l), tt),
)

two-AreTasks : AreTasks two
two-AreTasks = AreFrames-AreTasks two two-AreFrames

swap {ℓ} : {A B : Type ℓ} → A ⊎ (B ⊎ ⊥) → B ⊎ (A ⊎ ⊥)
swap (inl a) = inr (inl a)
swap (inr (inl b)) = inl b
swap (inr (inr e)) = absurd e

two-SameTasks : SameTasks two swapped
two-SameTasks x = (swap, swap)

run_pool-order_example :
    ((run_pool (pos 60) swapped working []).0 ≡ returns tt)
    × (stored (codes "c9_1") (run_pool (pos 60) two working []).1
        ≡ stored (codes "c9_1") (run_pool (pos 60) swapped working []).1)
    × ((x : FrameInfo Ptr) (i : ℕ)
        → Among x two
        → x.frame ≡ some i
        → stored (key_of x) (run_pool (pos 60) swapped working []).1 ≡ some (pos 60, some i))
    × (((x : FrameInfo Ptr) → Among x two → key_of x ≢ codes "c9_1")
        → stored (codes "c9_1") (run_pool (pos 60) swapped working []).1 ≡ stored (codes "c9_1") [])
run_pool-order_example =
    run_pool-order working 59 two swapped (codes "c9_1") [] working-Works (omega arith) two-AreTasks
      two-SameTasks

abbrev value_or : {A : Type 0} → A → Outcome A → A
value_or a (returns b) = b
value_or a throws = a
value_or a undefined = a

-- The frame that the probe posts for the batch.
abbrev posted_frame : FrameInfo Ptr
posted_frame = record {
  ts_nanoseconds = 77;
  camera_id = (camera_of context.sources 0).0;
  frame_num = pos 12;
  frame = some 5;
}

abbrev after_batch : Probed
after_batch =
    value_or before (nvanalytics_src_pad_buffer_probe context 77 (some batch) before willing []).0

posted_one :
    posted (nvanalytics_src_pad_buffer_probe context 77 (some batch) before willing []).1
    ≡ posted_frame ∷ []
unfolding nvanalytics_src_pad_buffer_probe process_frames process_frame map_frame handle_frame
    count_frame read_stream increment is_due send_frame find_camera push_objects push_metas
    look_at_meta pick_embedding push_object last_tensor enqueue construct copy_floats destroy
    move_construct
posted_one = refl

-- The due frames of the batch, with the images that were mapped.
abbrev due : List (FrameInfo Ptr)
due =
    due_frames context 77 (pos 1) (frames_in (some batch))
      (images (nvanalytics_src_pad_buffer_probe context 77 (some batch) before willing []).1)
