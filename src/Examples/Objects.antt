-- ===== src/Examples/Objects.antt =====
-- The theorems on the ownership of embeddings at one object with two floats.
use demo_colombia.Base.{ℕ, ◌≡◌, ◌≢◌, refl, inr, none, some, List, [], ◌∷◌, arith}
use demo_colombia.Base.Int.{pos}
use demo_colombia.Text.{codes}
use demo_colombia.ObjInfo.{update, ObjInfo, Heap, copy_construct, destroy}
use demo_colombia.ObjInfo.Ownership.{IsHeap, SameFields, copy_construct_owner}
use demo_colombia.ObjInfo.View.{Shows, recorded}
use demo_colombia.ObjInfo.Queue.{destroy_all, enqueue, DrainsTo, enqueue-DrainsTo}

abbrev pub seen : {E : Type 0} → E → ObjInfo E
seen e = record {
  ts_nanoseconds = 5;
  camera_id = codes "c1";
  description = codes "door";
  muxer_pad_index = pos 0;
  frame_num = pos 12;
  class_id = pos 0;
  object_id = 3;
  confidence = 9;
  bbox_top = pos 1;
  bbox_left = pos 2;
  bbox_width = pos 3;
  bbox_height = pos 4;
  embeddings_size = 2;
  embeddings = e;
  roi = [];
}

abbrev pub floats : List ℕ
floats = 8 ∷ 9 ∷ []

-- The array 1 holds the floats.
abbrev two_floats : Heap
two_floats = record { next = 1; cell = update (λ p. none) 1 (some floats) }

two_floats-IsHeap : IsHeap two_floats
two_floats-IsHeap p lt = ground arith

abbrev pub empty : Heap
empty = record { next = 0; cell = λ p. none }

copy_construct_owner_example :
    (y : ObjInfo ℕ) × (h' : Heap) × (h'' : Heap) × (copy_construct (seen 1) two_floats
      ≡ some (y, h'))
    × SameFields y (seen 1)
    × (y.embeddings ≢ 1)
    × (h'.cell y.embeddings ≡ some floats)
    × (h'.cell 1 ≡ some floats)
    × (destroy y h' ≡ some h'')
    × ((p : ℕ) → h''.cell p ≡ two_floats.cell p)
copy_construct_owner_example =
    copy_construct_owner (seen 1) two_floats floats two_floats-IsHeap refl (λ e. cc) (omega arith)

pub empty-DrainsTo : DrainsTo (λ p. none) [] empty
unfolding destroy_all
empty-DrainsTo = (empty, refl, λ p. refl)

enqueue-DrainsTo_example :
    (q : List (ObjInfo ℕ)) × (h : Heap) × (enqueue (seen (some floats)) [] empty ≡ some (q, h))
    × IsHeap h
    × DrainsTo (λ p. none) q h
    × Shows h q (recorded (seen (some floats)) ∷ [])
enqueue-DrainsTo_example =
    enqueue-DrainsTo (seen (some floats)) [] empty (λ p. none) [] (inr (floats, refl, omega arith))
      (λ p lt. refl) empty-DrainsTo tt
