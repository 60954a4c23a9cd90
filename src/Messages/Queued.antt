-- ===== src/Messages/Queued.antt =====
-- The message of an object in the queue, told from what the queue shows.
use demo_colombia.Base.{ℕ, ◌≡◌, Option, some, List, map, arith}
use demo_colombia.ObjInfo.{ObjInfo, Heap, with_embeddings}
use demo_colombia.ObjInfo.View.{view, IsReadable}
use demo_colombia.Messages.{JsonObject, message_floats, object_members, set_mqtt_message}
use demo_colombia.Messages.Contents.{seen_floats}

-- The message that a report asks for.
abbrev pub message_of : (ℕ → ℕ) → ObjInfo (Option (List ℕ)) → JsonObject
message_of widen r = object_members (with_embeddings r 0) (map widen (seen_floats r))

pub set_mqtt_message-view :
    (widen : ℕ → ℕ) (x : ObjInfo ℕ) (h : Heap) (r : ObjInfo (Option (List ℕ)))
    → view h x ≡ some r
    → IsReadable r
    → set_mqtt_message widen x h ≡ some (message_of widen r)
unfolding set_mqtt_message message_floats object_members
set_mqtt_message-view widen x h r e d = ground arith
