-- ===== src/Probe/Batch.antt =====
-- A batch is processed without a fault: its frames are counted, and the objects of due frames pushed.
use demo_colombia.Base.{
  append_assoc, append-nil, ◌++◌, ℕ, ◌+◌, ◌%◌, ◌^◌, ◌<◌, ◌≡◌, refl, sym, subst, inl, inr, false,
  Option, none, some, List, [], ◌∷◌, arith, ◌==◌, lt→ltb, if◌then◌else◌, Bool-cases,
}
use demo_colombia.Base.Int.{ℤ, to_u32}
use demo_colombia.Text.{codes}
use demo_colombia.Gst.{Ptr, Env, History, ◌>>◌, tell, returns, post_send2redis}
use demo_colombia.Gst.Ensures.{Returns, >>=-Returns, Returns-map}
use demo_colombia.Pipeline.{Pipeline, StreamSourceInfo}
use demo_colombia.Streams.{stream_at, read_stream, increment}
use demo_colombia.Probe.{
  AppCtx, FrameMeta, BatchMeta, ReidTensor, Probed, map_frame, count_frame, is_due, find_camera,
  send_frame, push_objects, handle_frame, process_frame, process_frames, last_tensor,
  nvanalytics_src_pad_buffer_probe,
}
use demo_colombia.Probe.Invariant.{AreComplete, AreSound, Holds}
use demo_colombia.ObjInfo.{ObjInfo}
use demo_colombia.Probe.Reports.{camera_of, object_reports, frame_reports, batch_reports}
use demo_colombia.Probe.Objects.{find_camera-camera_of, push_objects-Holds}
use demo_colombia.Probe.Frames.{
  sends, AllSound, HasRoom, Counts, count_up, add_frames_zero, HasRoom-tail, Counts-cons,
  frames_of_self,
}

-- No answer of the libraries keeps the image from being handled.
map_frame-Returns :
    (ctx : AppCtx) (f : FrameMeta) (env : Env) (h : History)
    → Returns (λ _. Unit {0}) (map_frame ctx f env h).0
unfolding map_frame
map_frame-Returns ctx f env h = ground arith

count_frame_counts :
    (p : Pipeline) (i : ℕ) (s : StreamSourceInfo) (env : Env) (h : History)
    → stream_at p i ≡ some s
    → s.frame_count + 1 < 2 ^ 31
    → count_frame i p env h ≡ (returns (count_up p i s), h)
unfolding count_frame read_stream increment
count_frame_counts p i s env h e lt = ground (arith, lt→ltb (s.frame_count + 1) (2 ^ 31) lt)

is_due_decides :
    (num interval : ℤ) (env : Env) (h : History)
    → (to_u32 interval == 0) ≡ false
    → is_due num interval env h ≡ (returns (to_u32 num % to_u32 interval == 0), h)
unfolding is_due
is_due_decides num interval env h e = rw e refl

module _ (base : ℕ → Option (List ℕ)) (ctx : AppCtx) (now : ℕ) (tensor : Option ReidTensor)
    (complete : AreComplete ctx.sources) (env : Env) where
  send_frame-Holds :
      (f : FrameMeta) (frame : Ptr) (p : Pipeline) (rs : List (ObjInfo (Option (List ℕ))))
      (st : Probed) (h : History)
      → AreSound tensor f.objects
      → Holds base p rs st
      → Returns
          (Holds base p (rs ++ object_reports ctx now tensor f f.objects))
          (send_frame ctx now tensor f frame st env h).0
  unfolding send_frame
  send_frame-Holds f frame p rs st h w v =
      >>=-Returns (λ c. c ≡ camera_of ctx.sources f.pad_index)
        (Holds base p (rs ++ object_reports ctx now tensor f f.objects))
        (λ camera.
          tell (post_send2redis now camera.0 f.frame_num frame)
          >> push_objects ctx now tensor f f.objects st)
        env (find_camera ctx.sources f.pad_index) h
        (find_camera-camera_of ctx.sources f.pad_index env h complete)
        (λ camera h' _.
          push_objects-Holds base p env ctx now tensor f complete f.objects rs st _ w v)

  module _ (interval : ℤ) (nonzero : (to_u32 interval == 0) ≡ false) where
    handle_frame_step :
        (f : FrameMeta) (frame : Ptr) (s : StreamSourceInfo) (st : Probed) (h : History)
        → stream_at st.pipeline f.pad_index ≡ some s
        → s.frame_count + 1 < 2 ^ 31
        → handle_frame ctx now tensor interval f st frame env h ≡ (
            if sends interval f
            then send_frame ctx now tensor f frame
                (record st { pipeline = count_up st.pipeline f.pad_index s })
                env
                h
            else (returns (record st { pipeline = count_up st.pipeline f.pad_index s }), h))
    unfolding handle_frame
    handle_frame_step f frame s st h e lt = ground (
      arith,
      count_frame_counts st.pipeline f.pad_index s env h e lt,
      is_due_decides f.frame_num interval env h nonzero,
    )

    handle_frame-Holds :
        (f : FrameMeta) (frame : Ptr) (s : StreamSourceInfo) (rs : List (ObjInfo (Option (List ℕ))))
        (st : Probed) (h : History)
        → stream_at st.pipeline f.pad_index ≡ some s
        → s.frame_count + 1 < 2 ^ 31
        → AreSound tensor f.objects
        → Holds base st.pipeline rs st
        → Returns
            (Holds base
              (count_up st.pipeline f.pad_index s)
              (rs ++ frame_reports ctx now tensor interval f))
            (handle_frame ctx now tensor interval f st frame env h).0
    handle_frame-Holds f frame s rs st h e lt w v =
        let st' : Probed = record st { pipeline = count_up st.pipeline f.pad_index s } in
        let v' : Holds base st'.pipeline rs st' = record {
          queue = v.queue;
          there = v.there;
          shows = v.shows;
          heap_sound = v.heap_sound;
          drains = v.drains;
          same = refl;
        } in
        rw (handle_frame_step f frame s st h e lt) (elim (Bool-cases (sends interval f)) [
          | inl due ↦ rw due (send_frame-Holds f frame st'.pipeline rs st' h w v')
          | inr early ↦
              rw early (subst (λ k. Holds base st'.pipeline k st') (sym (append-nil rs)) v')
        ])

    -- What a batch leaves: a sound queue with the objects of due frames, and counted frames.
    pub record Processed (p : Pipeline) (rs : List (ObjInfo (Option (List ℕ))))
        (fs : List (Option FrameMeta)) (st : Probed) : Type 0 where
      pub holds : Holds base st.pipeline (rs ++ batch_reports ctx now tensor interval fs) st
      pub counts : Counts p fs st.pipeline

    kept :
        (p : Pipeline) (rs : List (ObjInfo (Option (List ℕ)))) (st : Probed)
        → Holds base p rs st
        → Holds base st.pipeline rs st
    kept p rs st v = record {
      queue = v.queue;
      there = v.there;
      shows = v.shows;
      heap_sound = v.heap_sound;
      drains = v.drains;
      same = refl;
    }

    Processed-cons :
        (f : FrameMeta) (fs : List (Option FrameMeta)) (rs : List (ObjInfo (Option (List ℕ))))
        (p q : Pipeline) (s : StreamSourceInfo) (st : Probed)
        → stream_at p f.pad_index ≡ some s
        → q ≡ count_up p f.pad_index s
        → Processed q (rs ++ frame_reports ctx now tensor interval f) fs st
        → Processed p rs (some f ∷ fs) st
    Processed-cons f fs rs p q s st e same r = record {
      holds =
          subst (λ k. Holds base st.pipeline k st)
            (append_assoc rs (frame_reports ctx now tensor interval f)
              (batch_reports ctx now tensor interval fs))
            r.holds;
      counts =
          Counts-cons p f fs s st.pipeline e (subst (λ u. Counts u fs st.pipeline) same r.counts);
    }

    process_frames-Processed :
        (fs : List (Option FrameMeta)) (rs : List (ObjInfo (Option (List ℕ)))) (st : Probed)
        (h : History)
        → AllSound tensor fs
        → HasRoom st.pipeline fs
        → Holds base st.pipeline rs st
        → Returns
            (Processed st.pipeline rs fs)
            (process_frames ctx now tensor interval fs st env h).0
    unfolding process_frames process_frame
    process_frames-Processed [] rs st h w room v = record {
      holds = subst (λ k. Holds base st.pipeline k st) (sym (append-nil rs)) v;
      counts = record {
        cells = λ i. add_frames_zero (stream_at st.pipeline i);
        sized = refl;
        rest = refl;
      };
    }
    process_frames-Processed (none ∷ fs) rs st h w room v =
        Returns-map (Processed st.pipeline rs fs) (Processed st.pipeline rs (none ∷ fs))
          (process_frames ctx now tensor interval fs st env h).0
          (λ st' r. record {
            holds = r.holds;
            counts = record {
              cells = r.counts.cells;
              sized = r.counts.sized;
              rest = r.counts.rest;
            };
          })
          (process_frames-Processed fs rs st h w room v)
    process_frames-Processed (some f ∷ fs) rs st h (w, ws) room v =
        let (s, e, lt) = room f.pad_index (omega (arith, frames_of_self f fs)) in
        let p' = count_up st.pipeline f.pad_index s in
        let m = rs ++ frame_reports ctx now tensor interval f in
        >>=-Returns (Holds base p' m) (Processed st.pipeline rs (some f ∷ fs))
          (process_frames ctx now tensor interval fs) env
          (process_frame ctx now tensor interval f st) h
          (>>=-Returns (λ _. Unit {0}) (Holds base p' m) (handle_frame ctx now tensor interval f st)
            env (map_frame ctx f) h (map_frame-Returns ctx f env h)
            (λ frame h' _.
              handle_frame-Holds f frame s rs st h' e (omega (arith, lt, frames_of_self f fs)) w v))
          (λ st' h' v'.
            Returns-map (Processed st'.pipeline m fs) (Processed st.pipeline rs (some f ∷ fs))
              (process_frames ctx now tensor interval fs st' env h').0
              (λ st'' r. Processed-cons f fs rs st.pipeline st'.pipeline s st'' e v'.same r)
              (process_frames-Processed fs m st' h' ws
                (subst (λ q. HasRoom q fs) (sym v'.same) (HasRoom-tail st.pipeline f fs s e room))
                (kept p' m st' v')))

    -- If a batch is attached, the interval is set and not 0 modulo 2^32, the sources are complete, the
    -- embeddings that the user metas name lie inside the batch's last tensor, each frame is of an
    -- added stream whose counter has room, and emptying the queue frees each array of embeddings once,
    -- the probe returns, whatever the libraries answer: each stream has counted its frames, the rest
    -- of the pipeline is as it was, emptying the queue still frees each array once, and the queue
    -- shows, after what it showed before, the batch's reports in order: for each user meta of each
    -- object in a due frame, what that meta and those before it say, with the camera of the pad.
    pub nvanalytics_src_pad_buffer_probe-Processed :
        (batch : BatchMeta) (rs : List (ObjInfo (Option (List ℕ)))) (st : Probed) (h : History)
        → ctx.settings.as_int (codes "mqtt-broker" ∷ codes "frame-interval" ∷ []) ≡ some interval
        → last_tensor batch.user_metas none ≡ tensor
        → AllSound tensor batch.frames
        → HasRoom st.pipeline batch.frames
        → Holds base st.pipeline rs st
        → Returns
            (Processed st.pipeline rs batch.frames)
            (nvanalytics_src_pad_buffer_probe ctx now (some batch) st env h).0
    unfolding nvanalytics_src_pad_buffer_probe
    nvanalytics_src_pad_buffer_probe-Processed batch rs st h set last w room v =
        rw (set, last) (process_frames-Processed batch.frames rs st h w room v)
