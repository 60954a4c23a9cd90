-- ===== src/Probe/Objects.antt =====
-- The objects of a due frame are pushed without a fault, one for each user meta.
use demo_colombia.Base.{
  append_assoc, append-nil, sym, ◌++◌, ℕ, ◌*◌, ◌%◌, ◌^◌, ◌≡◌, refl, ap, ◌∙◌, subst, inl, inr,
  Option, none, some, List, [], ◌∷◌, arith, ltb, drop, length-drop, Bool-cases,
}
use demo_colombia.Base.Int.{ℤ, pos, negsuc}
use demo_colombia.Gst.{◌>>=◌, returns, Env, History}
use demo_colombia.Gst.Ensures.{Returns, >>=-Returns, Returns-map}
use demo_colombia.Pipeline.{Pipeline}
use demo_colombia.ObjInfo.{ObjInfo, Heap}
use demo_colombia.ObjInfo.Queue.{enqueue, enqueue-DrainsTo}
use demo_colombia.Probe.{
  SourceEntry, UserMeta, analytics, object_reid, other_meta, ObjectMeta, FrameMeta, ReidTensor,
  Probed, Seen, AppCtx, nothing_seen, find_camera, pick_embedding, look_at_meta, object_info,
  push_object, push_metas, push_objects,
}
use demo_colombia.ObjInfo.View.{recorded, IsReadable}
use demo_colombia.Probe.Reports.{
  camera_of, seen_in, look_at_meta-seen_in, present, report, reports_after, object_reports,
}
use mathlib.Core.Path.{ap₂}
use demo_colombia.Probe.Invariant.{AreComplete, IsInside, AreInside, AreSound, CanBeRead, Holds}

-- With complete entries the search finds the camera of the first entry for the pad.
pub find_camera-camera_of :
    (ss : List SourceEntry) (pad : ℕ) (env : Env) (h : History)
    → AreComplete ss
    → Returns (λ c. c ≡ camera_of ss pad) (find_camera ss pad env h).0
unfolding find_camera
find_camera-camera_of [] pad env h c = refl
find_camera-camera_of (s ∷ ss) pad env h (i, c, d, cs) =
    ground (arith, find_camera-camera_of ss pad env h cs)

pick_embedding-CanBeRead :
    (tensor : Option ReidTensor) (i : ℤ) (seen : Seen)
    → IsInside tensor (some (object_reid i))
    → CanBeRead seen
    → CanBeRead (pick_embedding tensor i seen)
unfolding pick_embedding
pick_embedding-CanBeRead none i seen w r = r
pick_embedding-CanBeRead (some t) (negsuc i) seen w r = r
pick_embedding-CanBeRead (some t) (pos i) seen w r = elim (Bool-cases (ltb 0 t.num_filled)) [
  | inl filled ↦ rw filled (
      inr (
        drop (i * t.feature_size % 2 ^ 32) t.features,
        refl,
        omega (arith, length-drop (i * t.feature_size % 2 ^ 32) t.features),
      ))
  | inr empty ↦ rw empty r
]

look_at_meta-CanBeRead :
    (tensor : Option ReidTensor) (m : UserMeta) (seen : Seen)
    → IsInside tensor (some m)
    → CanBeRead seen
    → CanBeRead (look_at_meta tensor m seen)
unfolding look_at_meta
look_at_meta-CanBeRead tensor (analytics rois) seen w r = r
look_at_meta-CanBeRead tensor (object_reid i) seen w r = pick_embedding-CanBeRead tensor i seen w r
look_at_meta-CanBeRead tensor other_meta seen w r = r

push_object_pushed :
    (o : ObjInfo (Option (List ℕ))) (q q' : List (ObjInfo ℕ)) (h' : Heap) (st : Probed) (env : Env)
    (h : History)
    → st.obj_list ≡ some q
    → enqueue o q st.heap ≡ some (q', h')
    → push_object o st env h ≡ (returns (record st { obj_list = some q'; heap = h' }), h)
unfolding push_object
push_object_pushed o q q' h' st env h e f = ground arith

module _ (base : ℕ → Option (List ℕ)) (p : Pipeline) (env : Env) where
  push_object-Holds :
      (o : ObjInfo (Option (List ℕ))) (rs : List (ObjInfo (Option (List ℕ)))) (st : Probed)
      (h : History)
      → IsReadable o
      → Holds base p rs st
      → Returns (Holds base p (rs ++ recorded o ∷ [])) (push_object o st env h).0
  push_object-Holds o rs st h r v =
      let (q', h', e, sound, d, w) =
        enqueue-DrainsTo o v.queue st.heap base rs r v.heap_sound v.drains v.shows in
      rw (push_object_pushed o v.queue q' h' st env h v.there e) (record {
        queue = q';
        there = refl;
        shows = w;
        heap_sound = sound;
        drains = d;
        same = v.same;
      })

  module _ (ctx : AppCtx) (now : ℕ) (tensor : Option ReidTensor) (f : FrameMeta)
      (complete : AreComplete ctx.sources) where
    abbrev told : ObjectMeta → List UserMeta → List UserMeta → List (ObjInfo (Option (List ℕ)))
    told o before ms = reports_after ctx now tensor f o before ms

    -- The loop over the user metas, where it has seen what `before` says.
    push_metas-Holds :
        (o : ObjectMeta) (ms : List (Option UserMeta)) (before : List UserMeta) (seen : Seen)
        (rs : List (ObjInfo (Option (List ℕ)))) (st : Probed) (h : History)
        → AreInside tensor ms
        → seen ≡ seen_in tensor before
        → CanBeRead seen
        → Holds base p rs st
        → Returns
            (Holds base p (rs ++ told o before (present ms)))
            (push_metas ctx now tensor f o ms seen st env h).0
    unfolding push_metas
    push_metas-Holds o [] before seen rs st h w e r v =
        subst (λ k. Holds base p k st) (sym (append-nil rs)) v
    push_metas-Holds o (none ∷ ms) before seen rs st h (w, ws) e r v = absurd w
    push_metas-Holds o (some m ∷ ms) before seen rs st h (w, ws) e r v =
        let seen' = look_at_meta tensor m seen in
        let before' = before ++ m ∷ [] in
        let e' : seen' ≡ seen_in tensor before' =
          ap (look_at_meta tensor m) e ∙ look_at_meta-seen_in tensor before m in
        let r' = look_at_meta-CanBeRead tensor m seen w r in
        let rest = told o before' (present ms) in
        let goal = Holds base p (rs ++ report ctx now tensor f o before' ∷ rest) in
        >>=-Returns (λ c. c ≡ camera_of ctx.sources f.pad_index) goal
          (λ camera. push_object (object_info now camera f o seen') st >>= λ st'.
            push_metas ctx now tensor f o ms seen' st')
          env (find_camera ctx.sources f.pad_index) h
          (find_camera-camera_of ctx.sources f.pad_index env h complete)
          (λ camera h₁ c.
            let done = rs ++ recorded (object_info now camera f o seen') ∷ [] in
            >>=-Returns (Holds base p done) goal (λ st'. push_metas ctx now tensor f o ms seen' st')
              env (push_object (object_info now camera f o seen') st) h₁
              (push_object-Holds (object_info now camera f o seen') rs st h₁ r' v)
              (λ st' h₂ v'.
                Returns-map (Holds base p (done ++ rest)) goal
                  (push_metas ctx now tensor f o ms seen' st' env h₂).0
                  (λ st'' v''.
                    subst (λ k. Holds base p k st'')
                      (append_assoc rs (recorded (object_info now camera f o seen') ∷ []) rest
                        ∙ ap₂ (λ a b. rs ++ recorded (object_info now a f o b) ∷ rest) c e')
                      v'')
                  (push_metas-Holds o ms before' seen' done st' h₂ ws e' r' v')))

    -- If the sources are complete, the user metas are there and the embeddings that they name lie
    -- inside the tensor, the objects of a due frame are pushed without a fault, one for each user meta;
    -- the arrays of embeddings made for it are owned by the queue, and the pipeline is left alone.
    pub push_objects-Holds :
        (os : List (Option ObjectMeta)) (rs : List (ObjInfo (Option (List ℕ)))) (st : Probed)
        (h : History)
        → AreSound tensor os
        → Holds base p rs st
        → Returns
            (Holds base p (rs ++ object_reports ctx now tensor f os))
            (push_objects ctx now tensor f os st env h).0
    unfolding push_objects
    push_objects-Holds [] rs st h w v = subst (λ k. Holds base p k st) (sym (append-nil rs)) v
    push_objects-Holds (none ∷ os) rs st h w v = push_objects-Holds os rs st h w v
    push_objects-Holds (some o ∷ os) rs st h (w, ws) v =
        let new = told o [] (present o.user_metas) in
        let rest = object_reports ctx now tensor f os in
        >>=-Returns (Holds base p (rs ++ new)) (Holds base p (rs ++ (new ++ rest)))
          (λ st'. push_objects ctx now tensor f os st') env
          (push_metas ctx now tensor f o o.user_metas nothing_seen st) h
          (push_metas-Holds o o.user_metas [] nothing_seen rs st h w refl (inl refl) v)
          (λ st' h₁ v'.
            Returns-map (Holds base p ((rs ++ new) ++ rest)) (Holds base p (rs ++ (new ++ rest)))
              (push_objects ctx now tensor f os st' env h₁).0
              (λ st'' v''. subst (λ k. Holds base p k st'') (append_assoc rs new rest) v'')
              (push_objects-Holds os (rs ++ new) st' h₁ ws v'))
