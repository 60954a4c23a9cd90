-- ===== src/Probe/Posts/Due.antt =====
-- The probe posts the due frames of a batch, in order and once each.
use demo_colombia.Probe.Invariant.{AreComplete}
use demo_colombia.Probe.Reports.{camera_of}
use demo_colombia.Gst.{◌>>◌, tell, ◌>>=◌}
use demo_colombia.Text.{codes}
use demo_colombia.Base.Int.{to_u32}
use demo_colombia.Base.{
  inr, inl, Bool-cases, refl, ◌==◌, ◌%◌, true, false, Bool, subst, ℕ, ◌≡◌, sym, ap, ◌∙◌, Option,
  none, some, List, [], ◌∷◌, ◌++◌, append-nil, append_assoc, if◌then◌else◌,
}
use demo_colombia.Base.Int.{to_u32, ℤ}
use demo_colombia.Text.{Bytes}
use demo_colombia.Gst.{M, Ptr, Env, History, post_send2redis, pure, ◌>>=◌}
use demo_colombia.Gst.Traces.{Leaves, Leaves-map, >>=-Leaves}
use demo_colombia.Probe.{
  last_tensor, process_frame, process_frames, send_frame, handle_frame,
  nvanalytics_src_pad_buffer_probe, BatchMeta, push_objects, ReidTensor, Pipeline, AppCtx,
  FrameMeta, Probed, find_camera, map_frame, count_frame, is_due,
}
use demo_colombia.Probe.Reports.{camera_of}
use demo_colombia.Probe.Frames.{sends}
use demo_colombia.Probe.Posts.{
  Event, mapped, sent, traced, sent_in, mapped_in, posted, images, due_frame, due_frames, frames_in,
  Posts, map_frame-mapped, count_frame-Posts, find_camera_found, >>=-Posts,
}
use demo_colombia.Probe.Posts.Objects.{push_objects-Posts}

module _ (env : Env) where
  module _ (ctx : AppCtx) (now : ℕ) (tensor : Option ReidTensor) where
    module _ (complete : AreComplete ctx.sources) where
      abbrev of_camera : FrameMeta → Ptr → Bytes → Event
      of_camera f frame camera = sent (record {
        ts_nanoseconds = now;
        camera_id = camera;
        frame_num = f.frame_num;
        frame = frame;
      })

      post-Posts :
          (f : FrameMeta) (frame : Ptr) (camera : Bytes)
          → Posts env
              (of_camera f frame camera ∷ [])
              (tell (post_send2redis now camera f.frame_num frame))
      post-Posts f frame camera h = refl

      -- What follows once the camera is found.
      abbrev located : FrameMeta → Ptr → Probed → Bytes × Bytes → M Probed
      located f frame st camera =
          tell (post_send2redis now camera.0 f.frame_num frame)
          >> push_objects ctx now tensor f f.objects st

      located-Posts :
          (f : FrameMeta) (frame : Ptr) (st : Probed) (camera : Bytes × Bytes) (h h' : History)
          → h' ≡ h
          → camera ≡ camera_of ctx.sources f.pad_index
          → Leaves
              (λ _ k. traced k ≡ traced h ++ sent (due_frame ctx now f frame) ∷ [])
              (located f frame st camera env h')
      located-Posts f frame st camera h h' e c =
          subst
            (λ d.
              Leaves (λ _ k. traced k ≡ traced h ++ of_camera f frame d.0 ∷ [])
                (located f frame st camera env h'))
            c
            (subst
              (λ g.
                Leaves (λ _ k. traced k ≡ traced g ++ of_camera f frame camera.0 ∷ [])
                  (located f frame st camera env h'))
              e
              (>>=-Posts env (tell (post_send2redis now camera.0 f.frame_num frame))
                (λ _. push_objects ctx now tensor f f.objects st) (of_camera f frame camera.0 ∷ [])
                [] (post-Posts f frame camera.0)
                (λ _. push_objects-Posts env ctx now tensor f f.objects st) h'))

      send_frame-Posts :
          (f : FrameMeta) (frame : Ptr) (st : Probed)
          → Posts env (sent (due_frame ctx now f frame) ∷ []) (send_frame ctx now tensor f frame st)
      unfolding send_frame
      send_frame-Posts f frame st h =
          let found = λ (c : Bytes × Bytes) (h' : History).
            (h' ≡ h) × (c ≡ camera_of ctx.sources f.pad_index) in
          >>=-Leaves found (λ _ k. traced k ≡ traced h ++ sent (due_frame ctx now f frame) ∷ [])
            (located f frame st) env (find_camera ctx.sources f.pad_index) h
            (subst (Leaves found) (sym (find_camera_found env ctx.sources f.pad_index h complete))
              (refl, refl))
            (λ camera h' v. located-Posts f frame st camera h h' v.0 v.1)

      module _ (interval : ℤ) where
        abbrev due_of : FrameMeta → Ptr → List Event
        due_of f frame = if sends interval f then sent (due_frame ctx now f frame) ∷ [] else []

        is_due_decides :
            (num : ℤ) (h : History)
            → Leaves
                (λ due h'. (h' ≡ h) × (due ≡ (to_u32 num % to_u32 interval == 0)))
                (is_due num interval env h)
        unfolding is_due
        is_due_decides num h = elim (Bool-cases (to_u32 interval == 0)) [
          | inl zero_interval ↦ rw zero_interval tt
          | inr fine ↦ rw fine (refl, refl)
        ]

        -- What is done with a frame once it is known whether it is due.
        abbrev decided : FrameMeta → Probed → Ptr → Bool → M Probed
        decided f st frame due = if due then send_frame ctx now tensor f frame st else pure st

        decided-Posts :
            (f : FrameMeta) (st : Probed) (frame : Ptr) (due : Bool) (h h' : History)
            → h' ≡ h
            → due ≡ sends interval f
            → Leaves (λ _ k. traced k ≡ traced h ++ due_of f frame) (decided f st frame due env h')
        decided-Posts f st frame true h h' e d = rw (← d) (
            subst
              (λ g.
                Leaves (λ _ k. traced k ≡ traced g ++ sent (due_frame ctx now f frame) ∷ [])
                  (send_frame ctx now tensor f frame st env h'))
              e (send_frame-Posts f frame st h'))
        decided-Posts f st frame false h h' e d =
            rw (← d) (ap traced e ∙ sym (append-nil (traced h)))

        handle_frame-Posts :
            (f : FrameMeta) (st : Probed) (frame : Ptr)
            → Posts env (due_of f frame) (handle_frame ctx now tensor interval f st frame)
        unfolding handle_frame
        handle_frame-Posts f st frame =
            >>=-Posts env (count_frame f.pad_index st.pipeline) tested [] (due_of f frame)
              (count_frame-Posts env f.pad_index st.pipeline)
              (λ p h.
                >>=-Leaves (λ due h'. (h' ≡ h) × (due ≡ sends interval f))
                  (λ _ k. traced k ≡ traced h ++ due_of f frame)
                  (decided f (record st { pipeline = p }) frame) env (is_due f.frame_num interval) h
                  (is_due_decides f.frame_num h)
                  (λ due h' v. decided-Posts f (record st { pipeline = p }) frame due h h' v.0 v.1))
          where
            tested : Pipeline → M Probed
            tested p = is_due f.frame_num interval >>= decided f (record st { pipeline = p }) frame

        -- A frame is mapped, and sent with its image if it is due.
        process_frame-traced :
            (f : FrameMeta) (st : Probed) (h : History)
            → Leaves
                (λ _ h'. (i : Ptr) × (traced h' ≡ traced h ++ mapped i ∷ due_of f i))
                (process_frame ctx now tensor interval f st env h)
        unfolding process_frame
        process_frame-traced f st h =
            >>=-Leaves (λ i h'. traced h' ≡ traced h ++ mapped i ∷ [])
              (λ _ h'. (i : Ptr) × (traced h' ≡ traced h ++ mapped i ∷ due_of f i))
              (handle_frame ctx now tensor interval f st) env (map_frame ctx f) h
              (map_frame-mapped env ctx f h)
              (λ i h' e.
                Leaves-map (λ _ k. traced k ≡ traced h' ++ due_of f i)
                  (λ _ k. (j : Ptr) × (traced k ≡ traced h ++ mapped j ∷ due_of f j))
                  (handle_frame ctx now tensor interval f st i env h')
                  (λ _ k d. (
                    i,
                    d
                        ∙ ap (λ es. es ++ due_of f i) e
                        ∙ append_assoc (traced h) (mapped i ∷ []) (due_of f i),
                  ))
                  (handle_frame-Posts f st i h'))

        -- What the events of a batch say: the images, and the due frames with them.
        record Tells (fs : List (Option FrameMeta)) (es : List Event) : Type 0 where
          sends_due : sent_in es ≡ due_frames ctx now interval fs (mapped_in es)

        Tells-cons :
            (f : FrameMeta) (fs : List (Option FrameMeta)) (i : Ptr) (es : List Event)
            → Tells fs es
            → Tells (some f ∷ fs) (mapped i ∷ (due_of f i ++ es))
        Tells-cons f fs i es t = elim (Bool-cases (sends interval f)) [
          | inl due ↦ record {
            sends_due = rw due (ap (λ xs. due_frame ctx now f i ∷ xs) t.sends_due);
          }
          | inr skipped ↦ record { sends_due = rw skipped t.sends_due }
        ]

        abbrev Traced : List (Option FrameMeta) → History → History → Type 0
        Traced fs h h' = (es : List Event) × (traced h' ≡ traced h ++ es) × Tells fs es

        process_frames-Traced :
            (fs : List (Option FrameMeta)) (st : Probed) (h : History)
            → Leaves (λ _ h'. Traced fs h h') (process_frames ctx now tensor interval fs st env h)
        unfolding process_frames
        process_frames-Traced [] st h =
            ([], sym (append-nil (traced h)), record { sends_due = refl })
        process_frames-Traced (none ∷ fs) st h =
            Leaves-map (λ _ h'. Traced fs h h') (λ _ h'. Traced (none ∷ fs) h h')
              (process_frames ctx now tensor interval fs st env h)
              (λ _ k t. (t.0, t.1, record { sends_due = t.2.sends_due }))
              (process_frames-Traced fs st h)
        process_frames-Traced (some f ∷ fs) st h =
            >>=-Leaves (λ _ h'. (i : Ptr) × (traced h' ≡ traced h ++ mapped i ∷ due_of f i))
              (λ _ h'. Traced (some f ∷ fs) h h')
              (λ st'. process_frames ctx now tensor interval fs st') env
              (process_frame ctx now tensor interval f st) h (process_frame-traced f st h)
              (λ st' h' one.
                Leaves-map (λ _ k. Traced fs h' k) (λ _ k. Traced (some f ∷ fs) h k)
                  (process_frames ctx now tensor interval fs st' env h')
                  (λ _ k t. (
                    mapped one.0 ∷ (due_of f one.0 ++ t.0),
                    t.1
                        ∙ ap (λ es. es ++ t.0) one.1
                        ∙ append_assoc (traced h) (mapped one.0 ∷ due_of f one.0) t.0,
                    Tells-cons f fs one.0 t.0 t.2,
                  ))
                  (process_frames-Traced fs st' h'))

  -- Whatever the libraries answer: where the sources are complete, nothing was mapped or posted before and
  -- the probe returns, it has posted for Redis just the due frames of the batch, in order and once each,
  -- with the time of the probe, the camera of the pad and the image that the frame itself was mapped to;
  -- in a buffer without a batch it posts none.
  pub nvanalytics_src_pad_buffer_probe-posts :
      (ctx : AppCtx) (now : ℕ) (batch : Option BatchMeta) (interval : ℤ) (st : Probed) (h : History)
      → AreComplete ctx.sources
      → ctx.settings.as_int (codes "mqtt-broker" ∷ codes "frame-interval" ∷ []) ≡ some interval
      → traced h ≡ []
      → Leaves
          (λ _ h'. posted h' ≡ due_frames ctx now interval (frames_in batch) (images h'))
          (nvanalytics_src_pad_buffer_probe ctx now batch st env h)
  unfolding nvanalytics_src_pad_buffer_probe
  nvanalytics_src_pad_buffer_probe-posts ctx now none interval st h complete set fresh =
      rw set (rw fresh refl)
  nvanalytics_src_pad_buffer_probe-posts ctx now (some b) interval st h complete set fresh =
      rw set (
        Leaves-map (λ _ k. Traced ctx now tensor complete interval b.frames h k)
          (λ _ k. posted k ≡ due_frames ctx now interval b.frames (images k))
          (process_frames ctx now tensor interval b.frames st env h)
          (λ _ k t.
            subst (λ es. sent_in es ≡ due_frames ctx now interval b.frames (mapped_in es))
              (sym (t.1 ∙ ap (λ es. es ++ t.0) fresh)) t.2.sends_due)
          (process_frames-Traced ctx now tensor complete interval b.frames st h))
    where
      tensor : Option ReidTensor
      tensor = last_tensor b.user_metas none
