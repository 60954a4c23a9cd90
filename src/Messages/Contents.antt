-- ===== src/Messages/Contents.antt =====
-- The message of a queued object carries what was seen of it.
use demo_colombia.Base.Int.{ℤ, pos, negsuc}
use demo_colombia.Text.{Bytes, codes, c_str, same_bytes}
use demo_colombia.Base.{
  String, ap, ◌∷◌, ◌<◌, ◌-◌, ◌^◌, length, length-take_all, take-take, ℕ, suc, ◌≡◌, inl, inr, Option,
  none, some, List, [], ◌==◌, if◌then◌else◌, take, map, arith,
}
use demo_colombia.ObjInfo.{ObjInfo, Heap, with_embeddings, construct, move_construct}
use demo_colombia.ObjInfo.View.{IsReadable}
use demo_colombia.Messages.{
  to_i64, JsonObject, JsonValue, json_int, json_string, json_double, json_doubles, json_strings,
  object_members, set_mqtt_message,
}

-- The embeddings that the message carries.
abbrev pub seen_floats : ObjInfo (Option (List ℕ)) → List ℕ
seen_floats o = elim o.embeddings [ none ↦ [] | some xs ↦ take o.embeddings_size xs ]

-- The value of a member.
abbrev member : Bytes → JsonObject → Option JsonValue
member key [] = none
member key ((k, v) ∷ ms) = if same_bytes k key then some v else member key ms

abbrev int_at : String → JsonObject → ℤ
int_at key m = elim (member (codes key) m) [ some (json_int z) ↦ z | _ ↦ pos 0 ]

abbrev natural : ℤ → ℕ
natural (pos n) = n
natural (negsuc n) = 2 ^ 64 - 1 - n

abbrev text_at : String → JsonObject → Bytes
text_at key m = elim (member (codes key) m) [ some (json_string s) ↦ s | _ ↦ [] ]

abbrev double_at : String → JsonObject → ℕ
double_at key m = elim (member (codes key) m) [ some (json_double x) ↦ x | _ ↦ 0 ]

abbrev doubles_at : String → JsonObject → List ℕ
doubles_at key m = elim (member (codes key) m) [ some (json_doubles xs) ↦ xs | _ ↦ [] ]

abbrev texts_at : String → JsonObject → List Bytes
texts_at key m = elim (member (codes key) m) [ some (json_strings ss) ↦ ss | _ ↦ [] ]

-- What a subscriber reads of a message, by the names of its members; a timestamp is read back as an
-- unsigned number of 64 bits.
abbrev pub read_object : JsonObject → ObjInfo (List ℕ)
read_object m = record {
  ts_nanoseconds = natural (int_at "@timestamp" m);
  camera_id = text_at "camera_id" m;
  description = text_at "description" m;
  muxer_pad_index = int_at "pad_index" m;
  frame_num = int_at "frame_num" m;
  class_id = int_at "class_id" m;
  object_id = natural (int_at "object_id" m);
  confidence = double_at "confidence" m;
  bbox_top = int_at "bbox_top" m;
  bbox_left = int_at "bbox_left" m;
  bbox_width = int_at "bbox_width" m;
  bbox_height = int_at "bbox_height" m;
  embeddings_size = length (doubles_at "embeddings" m);
  embeddings = doubles_at "embeddings" m;
  roi = texts_at "roi" m;
}

-- The object as its message shows it: texts up to their first NUL, and the floats widened.
abbrev pub told_of : (ℕ → ℕ) → ObjInfo (Option (List ℕ)) → ObjInfo (List ℕ)
told_of widen o = record {
  ts_nanoseconds = o.ts_nanoseconds;
  camera_id = c_str o.camera_id;
  description = c_str o.description;
  muxer_pad_index = o.muxer_pad_index;
  frame_num = o.frame_num;
  class_id = o.class_id;
  object_id = o.object_id;
  confidence = o.confidence;
  bbox_top = o.bbox_top;
  bbox_left = o.bbox_left;
  bbox_width = o.bbox_width;
  bbox_height = o.bbox_height;
  embeddings_size = length (map widen (seen_floats o));
  embeddings = map widen (seen_floats o);
  roi = map c_str o.roi;
}

natural-to_i64 : (n : ℕ) → n < 2 ^ 64 → natural (to_i64 n) ≡ n
natural-to_i64 n h = ground arith

read_object-members :
    (widen : ℕ → ℕ) (o : ObjInfo (Option (List ℕ)))
    → o.ts_nanoseconds < 2 ^ 64
    → read_object (object_members (with_embeddings o 0) (map widen (seen_floats o)))
      ≡ told_of widen o
unfolding object_members
read_object-members widen o h =
    ap (λ n. record (told_of widen o) { ts_nanoseconds = n }) (natural-to_i64 o.ts_nanoseconds h)

set_mqtt_message_made :
    (widen : ℕ → ℕ) (o : ObjInfo (Option (List ℕ))) (h : Heap)
    → IsReadable o
    → (x : ObjInfo ℕ) × (h' : Heap) × (construct o h ≡ some (x, h'))
      × (set_mqtt_message widen (move_construct x).0 h'
          ≡ some (object_members (with_embeddings o 0) (map widen (seen_floats o))))
unfolding construct move_construct set_mqtt_message object_members
set_mqtt_message_made widen o h (inl e) = (with_embeddings o 0, h, ground arith, ground arith)
set_mqtt_message_made widen o h (inr (xs, e, le)) = (
  with_embeddings o (suc h.next),
  record {
    next = suc h.next;
    cell = λ p. if suc h.next == p then some (take o.embeddings_size xs) else h.cell p;
  },
  ground arith,
  ground (arith, length-take_all o.embeddings_size xs le, take-take o.embeddings_size xs),
)

-- An object whose embeddings are there in full is made, and moved into the queue it has a message; a
-- reader that looks up the members by their names gets back every field of the object, texts up to
-- their first NUL, and just its floats, widened. The timestamp fits into 64 bits.
pub set_mqtt_message-construct :
    (widen : ℕ → ℕ) (o : ObjInfo (Option (List ℕ))) (h : Heap)
    → IsReadable o
    → o.ts_nanoseconds < 2 ^ 64
    → (x : ObjInfo ℕ) × (h' : Heap) × (payload : JsonObject) × (construct o h ≡ some (x, h'))
      × (set_mqtt_message widen (move_construct x).0 h' ≡ some payload)
      × (read_object payload ≡ told_of widen o)
set_mqtt_message-construct widen o h readable fits =
    let (x, h', made, message) = set_mqtt_message_made widen o h readable in
    (
      x,
      h',
      object_members (with_embeddings o 0) (map widen (seen_floats o)),
      made,
      message,
      read_object-members widen o fits,
    )
