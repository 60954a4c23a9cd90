-- ===== src/Examples/Probing.antt =====
-- The theorems on the probe at a batch of one frame with one object.
use demo_colombia.Streams.{stream_at}
use demo_colombia.Streams.Invariant.{IsSound, IsWatched}
use demo_colombia.Probe.Watched.{nvanalytics_src_pad_buffer_probe-IsSound}
use demo_colombia.Base.{
  subst, ◌<◌, ℕ, zero, suc, ◌≡◌, refl, some, none, true, [], ◌∷◌, arith, List, Option,
}
use demo_colombia.Base.Int.{pos}
use demo_colombia.Text.{codes}
use demo_colombia.Gst.Ensures.{Returns}
use demo_colombia.Pipeline.{idle}
use demo_colombia.Probe.{
  AppCtx, FrameMeta, ObjectMeta, BatchMeta, ReidTensor, Probed, analytics, object_reid, batch_reid,
  nvanalytics_src_pad_buffer_probe, last_tensor,
}
use demo_colombia.Probe.Invariant.{Holds}
use demo_colombia.Probe.Frames.{HasRoom}
use demo_colombia.Probe.Batch.{Processed, nvanalytics_src_pad_buffer_probe-Processed}
use demo_colombia.Examples.{StreamSourceInfo, willing, ones, camera, one_camera, entry}
use demo_colombia.Examples.Objects.{empty, empty-DrainsTo}

abbrev pub context : AppCtx
context = record { settings = ones; sources = entry ∷ []; save_frames = true }

abbrev pub person : ObjectMeta
person = record {
  class_id = pos 0;
  object_id = 4;
  confidence = 9;
  top = pos 1;
  left = pos 2;
  width = pos 3;
  height = pos 4;
  user_metas = some (analytics (codes "door" ∷ [])) ∷ some (object_reid (pos 1)) ∷ [];
}

abbrev pub one_frame : List (Option FrameMeta)
one_frame =
    some (record {
      pad_index = 0;
      batch_id = 0;
      frame_num = pos 12;
      objects = some person ∷ none ∷ [];
    })
    ∷ []

abbrev pub two_features : ReidTensor
two_features = record { num_filled = 2; feature_size = 2; features = 5 ∷ 6 ∷ 7 ∷ 8 ∷ [] }

abbrev pub batch : BatchMeta
batch = record { user_metas = some (batch_reid (some two_features)) ∷ []; frames = one_frame }

abbrev pub before : Probed
before = record { pipeline = one_camera (camera 0 idle); obj_list = some []; heap = empty }

pub before-Holds : Holds (λ p. none) before.pipeline [] before
before-Holds = record {
  queue = [];
  there = refl;
  shows = tt;
  heap_sound = λ p lt. refl;
  drains = empty-DrainsTo;
  same = refl;
}

before-HasRoom : HasRoom before.pipeline one_frame
before-HasRoom zero lt = (camera 0 idle, refl, omega arith)
before-HasRoom (suc i) lt = ground arith

tensor_found : last_tensor batch.user_metas none ≡ some two_features
unfolding last_tensor
tensor_found = refl

nvanalytics_src_pad_buffer_probe-Processed_example :
    Returns
      (Processed
        (λ p. none)
        context
        77
        (some two_features)
        (refl, refl, refl, tt)
        willing
        (pos 1)
        refl
        before.pipeline
        []
        one_frame)
      (nvanalytics_src_pad_buffer_probe context 77 (some batch) before willing []).0
nvanalytics_src_pad_buffer_probe-Processed_example =
    nvanalytics_src_pad_buffer_probe-Processed (λ p. none) context 77 (some two_features)
      (refl, refl, refl, tt) willing (pos 1) refl batch [] before [] refl tensor_found
      (((tt, (omega arith, tt)), tt), tt) before-HasRoom before-Holds

pub before-IsSound : IsSound 1 2 ones before.pipeline
before-IsSound = record {
  counted = refl;
  sized = refl;
  configured = refl;
  filled = filled;
  watched = watched;
}
  where
    filled : (i : ℕ) → i < 1 → (s : StreamSourceInfo) × (stream_at before.pipeline i ≡ some s)
    filled zero lt = (camera 0 idle, refl)
    filled (suc i) lt = absurd (omega arith)

    same : {s t : StreamSourceInfo} → some s ≡ some t → s ≡ t
    same e = cc

    watched : (i : ℕ) (s : StreamSourceInfo) → stream_at before.pipeline i ≡ some s → IsWatched 2 s
    watched zero s e =
        subst (IsWatched 2) (same e)
          (record { stage = omega arith; in_array = (0, refl, omega arith) })
    watched (suc zero) s e = cc
    watched (suc (suc i)) s e = cc

nvanalytics_src_pad_buffer_probe-IsSound_example :
    Returns
      (λ st. IsSound 1 2 ones st.pipeline)
      (nvanalytics_src_pad_buffer_probe context 77 (some batch) before willing []).0
nvanalytics_src_pad_buffer_probe-IsSound_example =
    nvanalytics_src_pad_buffer_probe-IsSound (λ p. none) context 77 (some two_features)
      (refl, refl, refl, tt) willing (pos 1) refl batch [] 1 2 ones before [] refl tensor_found
      (((tt, (omega arith, tt)), tt), tt) before-HasRoom before-Holds before-IsSound
