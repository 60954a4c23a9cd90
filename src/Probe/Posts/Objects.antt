-- ===== src/Probe/Posts/Objects.antt =====
-- The objects of a frame are pushed without anything being mapped or posted.
use demo_colombia.Gst.{◌>>=◌}
use demo_colombia.Base.{ℕ, Option, none, some, List, [], ◌∷◌}
use demo_colombia.Text.{Bytes}
use demo_colombia.Gst.{M, Env, ◌>>=◌}
use demo_colombia.ObjInfo.{ObjInfo}
use demo_colombia.Probe.{
  look_at_meta, object_info, nothing_seen, Seen, ObjectMeta, push_objects, deref, push_metas,
  UserMeta, ReidTensor, AppCtx, FrameMeta, Probed, find_camera, push_object,
}
use demo_colombia.Probe.Posts.{
  Posts, quiet, find_camera-Posts, push_object-Posts, deref-Posts, >>=-Posts,
}

module _ (env : Env) where
  module _ (ctx : AppCtx) (now : ℕ) (tensor : Option ReidTensor) where
    push_metas-Posts :
        (f : FrameMeta) (o : ObjectMeta) (ms : List (Option UserMeta)) (seen : Seen) (st : Probed)
        → Posts env [] (push_metas ctx now tensor f o ms seen st)
    unfolding push_metas
    push_metas-Posts f o [] seen st = quiet env st
    push_metas-Posts f o (m ∷ ms) seen st =
        >>=-Posts env (deref m) located [] [] (deref-Posts env m) (λ meta.
          >>=-Posts env (find_camera ctx.sources f.pad_index) (pushed meta) [] []
            (find_camera-Posts env ctx.sources f.pad_index)
            (λ camera.
              >>=-Posts env (push_object (info meta camera) st)
                (λ st'. push_metas ctx now tensor f o ms (look_at_meta tensor meta seen) st') [] []
                (push_object-Posts env (info meta camera) st)
                (λ st'. push_metas-Posts f o ms (look_at_meta tensor meta seen) st')))
      where
        info : UserMeta → Bytes × Bytes → ObjInfo (Option (List ℕ))
        info meta camera = object_info now camera f o (look_at_meta tensor meta seen)

        pushed : UserMeta → Bytes × Bytes → M Probed
        pushed meta camera = push_object (info meta camera) st >>= λ st'.
            push_metas ctx now tensor f o ms (look_at_meta tensor meta seen) st'

        located : UserMeta → M Probed
        located meta = find_camera ctx.sources f.pad_index >>= pushed meta

    pub push_objects-Posts :
        (f : FrameMeta) (os : List (Option ObjectMeta)) (st : Probed)
        → Posts env [] (push_objects ctx now tensor f os st)
    unfolding push_objects
    push_objects-Posts f [] st = quiet env st
    push_objects-Posts f (none ∷ os) st = push_objects-Posts f os st
    push_objects-Posts f (some o ∷ os) st =
        >>=-Posts env (push_metas ctx now tensor f o o.user_metas nothing_seen st)
          (λ st'. push_objects ctx now tensor f os st') [] []
          (push_metas-Posts f o o.user_metas nothing_seen st) (λ st'. push_objects-Posts f os st')
