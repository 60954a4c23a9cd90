-- ===== src/Probe/Reports.antt =====
-- What a batch says of the objects in its due frames, told without the loops: a report for each user
-- meta of an object, made of that meta and all before it.
use demo_colombia.Base.{
  false, ℕ, ◌*◌, ◌%◌, ◌^◌, ◌≡◌, refl, sym, ap, ◌∙◌, Bool, Option, none, some, List, [], ◌∷◌, ◌++◌,
  append_assoc, append-nil, ltb, ◌==◌, if◌then◌else◌, drop, arith,
}
use demo_colombia.Base.Int.{ℤ, pos, to_u32}
use demo_colombia.Text.{Bytes}
use demo_colombia.ObjInfo.{ObjInfo}
use demo_colombia.ObjInfo.View.{recorded}
use demo_colombia.Probe.{
  SourceEntry, AppCtx, UserMeta, analytics, object_reid, ObjectMeta, FrameMeta, ReidTensor, Seen,
  pick_embedding, look_at_meta, object_info,
}

abbrev is_of : ℕ → Option ℤ → Bool
is_of pad none = false
is_of pad (some i) = to_u32 i == pad

abbrev text_of : Option Bytes → Bytes
text_of none = []
text_of (some t) = t

-- The camera and the description of the first entry for a pad.
abbrev pub camera_of : List SourceEntry → ℕ → Bytes × Bytes
camera_of [] pad = ([], [])
camera_of (s ∷ ss) pad =
    if is_of pad s.pad_index then (text_of s.camera_id, text_of s.description) else camera_of ss pad

abbrev rois_of : UserMeta → List Bytes
rois_of (analytics rois) = rois
rois_of _ = []

abbrev rois_in : List UserMeta → List Bytes
rois_in [] = []
rois_in (m ∷ ms) = rois_of m ++ rois_in ms

-- The size and the floats of the embedding that a user meta names, if any.
abbrev embedding_of : Option ReidTensor → UserMeta → Option (ℕ × List ℕ)
embedding_of (some t) (object_reid (pos i)) =
    if ltb 0 t.num_filled
    then some (t.feature_size, drop (i * t.feature_size % 2 ^ 32) t.features)
    else none
embedding_of _ _ = none

abbrev later {ℓ} : {A : Type ℓ} → Option A → Option A → Option A
later a none = a
later a (some b) = some b

-- The last embedding.
abbrev embedding_in : Option ReidTensor → List UserMeta → Option (ℕ × List ℕ)
embedding_in tensor [] = none
embedding_in tensor (m ∷ ms) = later (embedding_of tensor m) (embedding_in tensor ms)

-- What the user metas say together.
abbrev pub seen_in : Option ReidTensor → List UserMeta → Seen
seen_in tensor ms = record {
  roi_list = rois_in ms;
  num_elements = elim (embedding_in tensor ms) [ none ↦ 0 | some (n, xs) ↦ n ];
  embeddings = elim (embedding_in tensor ms) [ none ↦ none | some (n, xs) ↦ some xs ];
}

rois_in-snoc :
    (ms : List UserMeta) (m : UserMeta) → rois_in (ms ++ m ∷ []) ≡ rois_in ms ++ rois_of m
rois_in-snoc [] m = append-nil (rois_of m)
rois_in-snoc (k ∷ ms) m =
    ap (◌++◌ (rois_of k)) (rois_in-snoc ms m)
    ∙ sym (append_assoc (rois_of k) (rois_in ms) (rois_of m))

later_assoc {ℓ} : {A : Type ℓ} (a b c : Option A) → later a (later b c) ≡ later (later a b) c
later_assoc a b none = refl
later_assoc a b (some c) = refl

embedding_in-snoc :
    (tensor : Option ReidTensor) (ms : List UserMeta) (m : UserMeta)
    → embedding_in tensor (ms ++ m ∷ []) ≡ later (embedding_in tensor ms) (embedding_of tensor m)
embedding_in-snoc tensor [] m = ground arith
embedding_in-snoc tensor (k ∷ ms) m =
    ap (later (embedding_of tensor k)) (embedding_in-snoc tensor ms m)
    ∙ later_assoc (embedding_of tensor k) (embedding_in tensor ms) (embedding_of tensor m)

-- What the loop has seen after one more meta is what the metas say together.
pub look_at_meta-seen_in :
    (tensor : Option ReidTensor) (ms : List UserMeta) (m : UserMeta)
    → look_at_meta tensor m (seen_in tensor ms) ≡ seen_in tensor (ms ++ m ∷ [])
unfolding look_at_meta pick_embedding
look_at_meta-seen_in tensor ms m =
    ground (arith, rois_in-snoc ms m, embedding_in-snoc tensor ms m, append-nil (rois_in ms))

-- The metas that are there.
abbrev pub present {ℓ} : {A : Type ℓ} → List (Option A) → List A
present [] = []
present (none ∷ os) = present os
present (some a ∷ os) = a ∷ present os

module _ (ctx : AppCtx) (now : ℕ) (tensor : Option ReidTensor) where
  -- The report of an object after some of its user metas.
  abbrev pub report : FrameMeta → ObjectMeta → List UserMeta → ObjInfo (Option (List ℕ))
  report f o ms =
      recorded (object_info now (camera_of ctx.sources f.pad_index) f o (seen_in tensor ms))

  -- A report for each of `ms`, where `before` came before them.
  abbrev pub reports_after :
      FrameMeta → ObjectMeta → List UserMeta → List UserMeta → List (ObjInfo (Option (List ℕ)))
  reports_after f o before [] = []
  reports_after f o before (m ∷ ms) =
      report f o (before ++ m ∷ []) ∷ reports_after f o (before ++ m ∷ []) ms

  abbrev pub object_reports :
      FrameMeta → List (Option ObjectMeta) → List (ObjInfo (Option (List ℕ)))
  object_reports f [] = []
  object_reports f (none ∷ os) = object_reports f os
  object_reports f (some o ∷ os) =
      reports_after f o [] (present o.user_metas) ++ object_reports f os

  abbrev pub frame_reports : ℤ → FrameMeta → List (ObjInfo (Option (List ℕ)))
  frame_reports interval f =
      if to_u32 f.frame_num % to_u32 interval == 0 then object_reports f f.objects else []

  abbrev pub batch_reports : ℤ → List (Option FrameMeta) → List (ObjInfo (Option (List ℕ)))
  batch_reports interval [] = []
  batch_reports interval (none ∷ fs) = batch_reports interval fs
  batch_reports interval (some f ∷ fs) = frame_reports interval f ++ batch_reports interval fs
