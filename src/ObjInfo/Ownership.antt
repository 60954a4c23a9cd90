-- ===== src/ObjInfo/Ownership.antt =====
-- Each object owns its array: it is copied with the object, freed once, and never shared.
use demo_colombia.Base.{ℕ, suc, ◌≤◌, ◌<◌, ◌≡◌, ◌≢◌, refl, none, some, List, length, take, arith}
use demo_colombia.ObjInfo.{
  ObjInfo, Heap, with_embeddings, update, copy_construct, move_construct, destroy,
}

-- Addresses in use are among those given out.
abbrev pub IsHeap : Heap → Type 0
IsHeap h = (p : ℕ) → h.next < p → h.cell p ≡ none

-- All fields but the pointer agree.
abbrev pub SameFields : ObjInfo ℕ → ObjInfo ℕ → Type 0
SameFields x y = with_embeddings {F = ℕ} x 0 ≡ with_embeddings y 0

-- The fresh address is not one in use.
pub fresh-ne : (h : Heap) {p : ℕ} {xs : List ℕ} → IsHeap h → h.cell p ≡ some xs → p ≢ suc h.next
fresh-ne h {p} v e same = cc (v p (omega arith))

-- Copying an object that owns its array succeeds: the copy has the same fields and an array of its own
-- with the same floats, the original keeps its array, and to destroy the copy gives back just that.
pub copy_construct_owner :
    (o : ObjInfo ℕ) (h : Heap) (xs : List ℕ)
    → IsHeap h
    → h.cell o.embeddings ≡ some xs
    → o.embeddings ≢ 0
    → o.embeddings_size ≤ length xs
    → (y : ObjInfo ℕ) × (h' : Heap) × (h'' : Heap) × (copy_construct o h ≡ some (y, h'))
      × SameFields y o
      × (y.embeddings ≢ o.embeddings)
      × (h'.cell y.embeddings ≡ some (take o.embeddings_size xs))
      × (h'.cell o.embeddings ≡ some xs)
      × (destroy y h' ≡ some h'')
      × ((p : ℕ) → h''.cell p ≡ h.cell p)
unfolding copy_construct destroy
copy_construct_owner o h xs v e n le = (
  with_embeddings o (suc h.next),
  record {
    next = suc h.next;
    cell = update h.cell (suc h.next) (some (take o.embeddings_size xs));
  },
  record {
    next = suc h.next;
    cell = update (update h.cell (suc h.next) (some (take o.embeddings_size xs))) (suc h.next) none;
  },
  ground arith,
  refl,
  λ same. fresh-ne h v e (ground arith),
  ground arith,
  ground (arith, fresh-ne h v e),
  ground arith,
  λ p. ground (arith, v (suc h.next)),
)

-- After a move the old object has no array to free, and the new one frees what the old one would have.
pub move_construct-destroy :
    (o : ObjInfo ℕ) (h : Heap)
    → let (new, old) = move_construct o in
      (destroy old h ≡ some h) × (destroy new h ≡ destroy o h) × SameFields new o × SameFields old o
unfolding move_construct destroy
move_construct-destroy o h = (ground arith, refl, refl, refl)
