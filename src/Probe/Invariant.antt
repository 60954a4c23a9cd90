-- ===== src/Probe/Invariant.antt =====
-- What the probe needs of the metadata and of the queue, to run without a fault.
use demo_colombia.Base.{
  ℕ, ◌+◌, ◌*◌, ◌%◌, ◌^◌, ◌≤◌, ◌≡◌, ◌⊎◌, true, Option, none, some, List, [], ◌∷◌, length, is_some,
}
use demo_colombia.Base.Int.{pos}
use demo_colombia.Pipeline.{Pipeline}
use demo_colombia.ObjInfo.{ObjInfo}
use demo_colombia.ObjInfo.Ownership.{IsHeap}
use demo_colombia.ObjInfo.Queue.{DrainsTo}
use demo_colombia.ObjInfo.View.{Shows}
use demo_colombia.Probe.{SourceEntry, UserMeta, object_reid, ObjectMeta, ReidTensor, Probed, Seen}

-- No key is missing that the probe reads.
abbrev pub AreComplete : List SourceEntry → Type 0
AreComplete [] = Unit
AreComplete (s ∷ ss) =
    (is_some s.pad_index ≡ true)
    × (is_some s.camera_id ≡ true)
    × (is_some s.description ≡ true)
    × AreComplete ss

-- A user meta is there, and the embedding that it names lies inside the tensor.
abbrev pub IsInside : Option ReidTensor → Option UserMeta → Type 0
IsInside tensor none = ⊥
IsInside (some t) (some (object_reid (pos i))) =
    i * t.feature_size % 2 ^ 32 + t.feature_size ≤ length t.features
IsInside _ (some _) = Unit

abbrev pub AreInside : Option ReidTensor → List (Option UserMeta) → Type 0
AreInside tensor [] = Unit
AreInside tensor (m ∷ ms) = IsInside tensor m × AreInside tensor ms

abbrev pub AreSound : Option ReidTensor → List (Option ObjectMeta) → Type 0
AreSound tensor [] = Unit
AreSound tensor (none ∷ os) = AreSound tensor os
AreSound tensor (some o ∷ os) = AreInside tensor o.user_metas × AreSound tensor os

-- The embeddings seen so far can be read in full.
abbrev pub CanBeRead : Seen → Type 0
CanBeRead s =
    (s.embeddings ≡ none)
    ⊎ ((xs : List ℕ) × (s.embeddings ≡ some xs) × (s.num_elements ≤ length xs))

-- The queue shows the reports `rs` and owns what the heap has beyond `base`; the pipeline is `p`.
pub record Holds (base : ℕ → Option (List ℕ)) (p : Pipeline) (rs : List (ObjInfo (Option (List ℕ))))
    (st : Probed) : Type 0 where
  pub queue : List (ObjInfo ℕ)
  pub there : st.obj_list ≡ some queue
  pub shows : Shows st.heap queue rs
  pub heap_sound : IsHeap st.heap
  pub drains : DrainsTo base queue st.heap
  pub same : st.pipeline ≡ p
