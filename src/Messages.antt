-- ===== src/Messages.antt =====
-- perception/src/perception.cpp: `set_mqtt_message` and `set_mqtt_frame_message`, as the members of the
-- JSON object that json-glib then prints. A double is the number of its bit pattern.
pub mod Contents
pub mod Queued
use demo_colombia.Base.{
  ℕ, zero, suc, ◌-◌, ◌%◌, ◌^◌, Bool, true, false, Option, none, some, List, [], ◌∷◌, ◌++◌, ◌==◌,
  ltb, leb, if◌then◌else◌, length, take, map,
}
use demo_colombia.Base.Int.{ℤ, pos, negsuc}
use demo_colombia.Text.{Bytes, codes, c_str}
use demo_colombia.ObjInfo.{ObjInfo, FrameInfo, Heap, read_floats}

pub data JsonValue : Type 0 where
  json_string : Bytes → JsonValue
  json_int : ℤ → JsonValue
  json_double : ℕ → JsonValue
  json_doubles : List ℕ → JsonValue
  json_strings : List Bytes → JsonValue

abbrev pub JsonObject : Type 0
JsonObject = List (Bytes × JsonValue)

-- Conversion of an `unsigned long long` to `gint64`: two's complement.
abbrev pub to_i64 : ℕ → ℤ
to_i64 n = if ltb (n % 2 ^ 64) (2 ^ 63) then pos (n % 2 ^ 64) else negsuc (2 ^ 64 - 1 - n % 2 ^ 64)

-- The floats behind the object's pointer: none for NULL; a read outside the array is a fault.
unfoldable pub message_floats : ObjInfo ℕ → Heap → Option (List ℕ)
message_floats o h =
    if o.embeddings == 0
    then some []
    else elim (h.cell o.embeddings) [ none ↦ none | some xs ↦ read_floats o.embeddings_size xs ]

unfoldable pub object_members : ObjInfo ℕ → List ℕ → JsonObject
object_members o floats =
    (codes "version", json_string (codes "1.0"))
    ∷ (codes "type", json_string (codes "global_reid"))
    ∷ (codes "@timestamp", json_int (to_i64 o.ts_nanoseconds))
    ∷ (codes "camera_id", json_string (c_str o.camera_id))
    ∷ (codes "pad_index", json_int o.muxer_pad_index)
    ∷ (codes "description", json_string (c_str o.description))
    ∷ (codes "class_id", json_int o.class_id)
    ∷ (codes "object_id", json_int (pos o.object_id))
    ∷ (codes "frame_num", json_int o.frame_num)
    ∷ (codes "confidence", json_double o.confidence)
    ∷ (codes "bbox_top", json_int o.bbox_top)
    ∷ (codes "bbox_left", json_int o.bbox_left)
    ∷ (codes "bbox_width", json_int o.bbox_width)
    ∷ (codes "bbox_height", json_int o.bbox_height)
    ∷ (codes "embeddings", json_doubles floats)
    ∷ (codes "roi", json_strings (map c_str o.roi))
    ∷ []

-- The message of an object; `none` is a fault. Floats are widened to doubles by a parameter.
unfoldable pub set_mqtt_message : (ℕ → ℕ) → ObjInfo ℕ → Heap → Option JsonObject
unfolding object_members message_floats
set_mqtt_message widen o h = elim (message_floats o h) [
  | none ↦ none
  | some xs ↦ some (object_members o (map widen xs))
]

-- The message of a frame. Whether a frame is empty, its JPEG encoding with quality 90, and base64 are
-- parameters.
unfoldable pub set_mqtt_frame_message :
    {Image : Type 0}
    → (Image → Bool)
    → (Image → Bytes)
    → (Bytes → Bytes)
    → FrameInfo Image
    → JsonObject
set_mqtt_frame_message is_empty imencode to_base64 f =
    (codes "version", json_string (codes "1.0"))
    ∷ (codes "type", json_string (codes "camera_frame"))
    ∷ (codes "@timestamp", json_int (to_i64 f.ts_nanoseconds))
    ∷ (codes "camera_id", json_string (c_str f.camera_id))
    ∷ (codes "frame_num", json_int f.frame_num)
    ∷ (if is_empty f.frame
        then []
        else (codes "frame", json_string (c_str (to_base64 (imencode f.frame)))) ∷ [])
