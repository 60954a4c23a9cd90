-- ===== src/Probe/Watched.antt =====
-- The probe keeps what the watchdog needs of the streams.
use demo_colombia.Base.{
  ℕ, ◌+◌, ◌≡◌, refl, sym, ap, subst, ◌∙◌, none, some, List, [], ◌∷◌, Option, false, ◌==◌,
}
use demo_colombia.Base.Int.{ℤ, to_u32}
use demo_colombia.Text.{codes}
use demo_colombia.Gst.{Env, History, Settings}
use demo_colombia.Gst.Ensures.{Returns, Returns-map}
use demo_colombia.Pipeline.{Pipeline, StreamSourceInfo}
use demo_colombia.Streams.{stream_at}
use demo_colombia.Streams.Invariant.{IsSound, IsWatched}
use demo_colombia.Probe.{
  AppCtx, FrameMeta, BatchMeta, ReidTensor, Probed, last_tensor, nvanalytics_src_pad_buffer_probe,
}
use demo_colombia.ObjInfo.{ObjInfo}
use demo_colombia.Probe.Invariant.{AreComplete, Holds}
use demo_colombia.Probe.Frames.{frames_of, AllSound, HasRoom, Counts, add_frames}
use demo_colombia.Probe.Batch.{Processed, nvanalytics_src_pad_buffer_probe-Processed}

add_frames-IsWatched :
    (size k : ℕ) (o : Option StreamSourceInfo) (s : StreamSourceInfo)
    → ((t : StreamSourceInfo) → o ≡ some t → IsWatched size t)
    → add_frames k o ≡ some s
    → IsWatched size s
add_frames-IsWatched size k none s w e = cc
add_frames-IsWatched size k (some t) s w e =
    let old = w t refl in
    subst (IsWatched size) (some_injective e)
      (record { stage = old.stage; in_array = old.in_array })
  where
    some_injective : {a b : StreamSourceInfo} → some a ≡ some b → a ≡ b
    some_injective h = cc

pub Counts-IsSound :
    (count size : ℕ) (c : Settings) (p p' : Pipeline) (fs : List (Option FrameMeta))
    → Counts p fs p'
    → IsSound count size c p
    → IsSound count size c p'
Counts-IsSound count size c p p' fs n v = record {
  counted = ap (λ q. q.num_sources) n.rest ∙ v.counted;
  sized = n.sized ∙ v.sized;
  configured = ap (λ q. q.configs) n.rest ∙ v.configured;
  filled = λ i lt.
      let (s, e) = v.filled i lt in
      (
        record s { frame_count = s.frame_count + frames_of i fs },
        n.cells i ∙ ap (add_frames (frames_of i fs)) e,
      );
  watched = λ i s e.
      add_frames-IsWatched size (frames_of i fs) (stream_at p i) s (v.watched i)
        (sym (n.cells i) ∙ e);
}

-- If a batch is attached, the interval is set and not 0 modulo 2^32, the sources are complete, the
-- embeddings that the user metas name lie inside the batch's last tensor, each frame is of an added
-- stream whose counter has room, emptying the queue frees each array of embeddings once, the queued
-- objects can be read, and the invariant of the watchdog holds, then the probe returns and the
-- invariant, which `check_performance` needs and keeps, holds afterwards.
pub nvanalytics_src_pad_buffer_probe-IsSound :
    (base : ℕ → Option (List ℕ)) (ctx : AppCtx) (now : ℕ) (tensor : Option ReidTensor)
    (complete : AreComplete ctx.sources) (env : Env) (interval : ℤ)
    (nonzero : (to_u32 interval == 0) ≡ false) (batch : BatchMeta)
    (rs : List (ObjInfo (Option (List ℕ)))) (count size : ℕ) (c : Settings) (st : Probed)
    (h : History)
    → ctx.settings.as_int (codes "mqtt-broker" ∷ codes "frame-interval" ∷ []) ≡ some interval
    → last_tensor batch.user_metas none ≡ tensor
    → AllSound tensor batch.frames
    → HasRoom st.pipeline batch.frames
    → Holds base st.pipeline rs st
    → IsSound count size c st.pipeline
    → Returns
        (λ st'. IsSound count size c st'.pipeline)
        (nvanalytics_src_pad_buffer_probe ctx now (some batch) st env h).0
nvanalytics_src_pad_buffer_probe-IsSound base ctx now tensor complete env interval nonzero batch rs
      count size c st h set last w room v sound =
    Returns-map
      (Processed base ctx now tensor complete env interval nonzero st.pipeline rs batch.frames)
      (λ st'. IsSound count size c st'.pipeline)
      (nvanalytics_src_pad_buffer_probe ctx now (some batch) st env h).0
      (λ st' r. Counts-IsSound count size c st.pipeline st'.pipeline batch.frames r.counts sound)
      (nvanalytics_src_pad_buffer_probe-Processed base ctx now tensor complete env interval nonzero
        batch rs st h set last w room v)
