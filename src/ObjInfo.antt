-- ===== src/ObjInfo.antt =====
-- perception/include/ObjInfo.hpp: `ObjInfo`, whose constructors copy the embeddings into an array of
-- their own, and `FrameInfo`. Floats and doubles are the numbers of their bit patterns.
pub mod Ownership
pub mod View
pub mod Queue
pub mod Pop
use demo_colombia.Base.{
  ℕ, suc, ◌+◌, Option, none, some, List, ◌==◌, if◌then◌else◌, length, take, leb,
}
use demo_colombia.Base.Int.{ℤ}
use demo_colombia.Text.{Bytes}

-- `E` is how the embeddings are held: a pointer in the program, their contents for a reader.
pub record ObjInfo (E : Type 0) : Type 0 where
  pub ts_nanoseconds : ℕ
  pub camera_id : Bytes
  pub description : Bytes
  pub muxer_pad_index : ℤ
  pub frame_num : ℤ
  pub class_id : ℤ
  pub object_id : ℕ
  pub confidence : ℕ
  pub bbox_top : ℤ
  pub bbox_left : ℤ
  pub bbox_width : ℤ
  pub bbox_height : ℤ
  pub embeddings_size : ℕ
  pub embeddings : E
  pub roi : List Bytes

abbrev pub with_embeddings : {E F : Type 0} → ObjInfo E → F → ObjInfo F
with_embeddings o e = record {
  ts_nanoseconds = o.ts_nanoseconds;
  camera_id = o.camera_id;
  description = o.description;
  muxer_pad_index = o.muxer_pad_index;
  frame_num = o.frame_num;
  class_id = o.class_id;
  object_id = o.object_id;
  confidence = o.confidence;
  bbox_top = o.bbox_top;
  bbox_left = o.bbox_left;
  bbox_width = o.bbox_width;
  bbox_height = o.bbox_height;
  embeddings_size = o.embeddings_size;
  embeddings = e;
  roi = o.roi;
}

-- The arrays that `new float[n]` has made and `delete[]` has not freed, by address; 0 is NULL and no
-- address is used twice.
pub record Heap : Type 0 where
  pub next : ℕ
  pub cell : ℕ → Option (List ℕ)

abbrev pub update : (ℕ → Option (List ℕ)) → ℕ → Option (List ℕ) → ℕ → Option (List ℕ)
update f p v q = if p == q then v else f q

-- `new float[n]` with the contents written into it at once.
abbrev pub allocate : List ℕ → Heap → ℕ × Heap
allocate xs h =
    (suc h.next, record { next = suc h.next; cell = update h.cell (suc h.next) (some xs) })

-- The `n` floats from a source on; `none` is a read past its end.
abbrev pub read_floats : ℕ → List ℕ → Option (List ℕ)
read_floats n xs = if leb n (length xs) then some (take n xs) else none

-- `memcpy` into a new array. `none` is a fault.
unfoldable pub copy_floats : ℕ → List ℕ → Heap → Option (ℕ × Heap)
copy_floats n xs h = elim (read_floats n xs) [ none ↦ none | some ys ↦ some (allocate ys h) ]

-- The constructor: `o.embeddings` is what the caller's pointer points to, if it is not NULL.
unfoldable pub construct : ObjInfo (Option (List ℕ)) → Heap → Option (ObjInfo ℕ × Heap)
unfolding copy_floats
construct o h = elim o.embeddings [
  | none ↦ some (with_embeddings o 0, h)
  | some xs ↦ elim (copy_floats o.embeddings_size xs h) [
    | none ↦ none
    | some (p, h') ↦ some (with_embeddings o p, h')
  ]
]

-- The copy constructor. A dangling pointer is a fault.
unfoldable pub copy_construct : ObjInfo ℕ → Heap → Option (ObjInfo ℕ × Heap)
unfolding copy_floats
copy_construct o h =
    if o.embeddings == 0 then some (with_embeddings o 0, h) else elim (h.cell o.embeddings) [
      | none ↦ none
      | some xs ↦ elim (copy_floats o.embeddings_size xs h) [
        | none ↦ none
        | some (p, h') ↦ some (with_embeddings o p, h')
      ]
    ]

-- The move constructor: the new object, and the old one that it leaves behind.
unfoldable pub move_construct : ObjInfo ℕ → ObjInfo ℕ × ObjInfo ℕ
move_construct o = (o, record o { embeddings = 0 })

-- The destructor. Freeing an array twice is a fault.
unfoldable pub destroy : ObjInfo ℕ → Heap → Option Heap
destroy o h = if o.embeddings == 0 then some h else elim (h.cell o.embeddings) [
  | none ↦ none
  | some xs ↦ some (record h { cell = update h.cell o.embeddings none })
]

-- `FrameInfo`: `Image` is a `cv::Mat`, whose copies share their pixels.
pub record FrameInfo (Image : Type 0) : Type 0 where
  pub ts_nanoseconds : ℕ
  pub camera_id : Bytes
  pub frame_num : ℤ
  pub frame : Image
