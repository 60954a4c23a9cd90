-- ===== src/Metadata.antt =====
-- perception/src/perception.cpp: the data that the probe reads and changes: the sources file, the
-- context of the application, and the metadata that DeepStream attaches to a batch.
use demo_colombia.Base.{ℕ, Option, List, none, [], Bool}
use demo_colombia.Base.Int.{ℤ}
use demo_colombia.Text.{Bytes}
use demo_colombia.Gst.{Settings}
use demo_colombia.Pipeline.{Pipeline}
use demo_colombia.ObjInfo.{ObjInfo, Heap}

-- An entry of the sources file; a key that is missing makes `as<T>()` throw.
pub record SourceEntry : Type 0 where
  pub uri : Option Bytes
  pub camera_id : Option Bytes
  pub pad_index : Option ℤ
  pub description : Option Bytes

-- The members of the application context that the probe reads.
pub record AppCtx : Type 0 where
  pub settings : Settings
  pub sources : List SourceEntry
  pub save_frames : Bool

-- What the analytics and the tracker attach to an object: the regions it is in, and the index of its
-- embedding in the batch.
pub data UserMeta : Type 0 where
  analytics : List Bytes → UserMeta
  object_reid : ℤ → UserMeta
  other_meta : UserMeta

-- `NvDsObjectMeta`; the floats of the rectangle are given by the `int`s to which they are converted, so
-- they are taken to be in the range of `int`, and the confidence by the double that it is widened to.
-- The id has 64 bits.
pub record ObjectMeta : Type 0 where
  pub class_id : ℤ
  pub object_id : ℕ
  pub confidence : ℕ
  pub top : ℤ
  pub left : ℤ
  pub width : ℤ
  pub height : ℤ
  pub user_metas : List (Option UserMeta)

-- `NvDsFrameMeta`; a list element may be NULL.
pub record FrameMeta : Type 0 where
  pub pad_index : ℕ
  pub batch_id : ℕ
  pub frame_num : ℤ
  pub objects : List (Option ObjectMeta)

-- `NvDsReidTensorBatch`; `features` are the floats at `ptr_host`.
pub record ReidTensor : Type 0 where
  pub num_filled : ℕ
  pub feature_size : ℕ
  pub features : List ℕ

pub data BatchUserMeta : Type 0 where
  batch_reid : Option ReidTensor → BatchUserMeta
  other_batch_meta : BatchUserMeta

pub record BatchMeta : Type 0 where
  pub user_metas : List (Option BatchUserMeta)
  pub frames : List (Option FrameMeta)

-- What the probe changes. The queue is a pointer that may be NULL.
pub record Probed : Type 0 where
  pub pipeline : Pipeline
  pub obj_list : Option (List (ObjInfo ℕ))
  pub heap : Heap

-- What the loop over an object's user metas has seen so far.
pub record Seen : Type 0 where
  pub roi_list : List Bytes
  pub num_elements : ℕ
  pub embeddings : Option (List ℕ)

abbrev pub nothing_seen : Seen
nothing_seen = record { roi_list = []; num_elements = 0; embeddings = none }
