-- ===== src/ObjInfo/Queue.antt =====
-- The objects in the queue that the probe fills and the broker's thread empties.
use demo_colombia.Base.{
  ℕ, suc, ◌≤◌, ◌≡◌, ◌≢◌, refl, inl, inr, Option-cases, Option, none, some, List, [], ◌∷◌, ◌++◌,
  ◌==◌, if◌then◌else◌, length, take, arith,
}
use demo_colombia.ObjInfo.{
  ObjInfo, Heap, with_embeddings, allocate, update, construct, move_construct, destroy,
}
use demo_colombia.ObjInfo.Ownership.{IsHeap}
use demo_colombia.ObjInfo.View.{
  IsReadable, recorded-IsReadable, Shows, recorded, Shows-snoc, Shows-allocate, view-null,
  view-fresh,
}

-- The probe's `obj_list->push(std::move(obj_info))`, and the end of the local object's life.
unfoldable pub enqueue :
    ObjInfo (Option (List ℕ)) → List (ObjInfo ℕ) → Heap → Option (List (ObjInfo ℕ) × Heap)
enqueue o q h = elim (construct o h) [
  | none ↦ none
  | some (x, h') ↦ elim (destroy (move_construct x).1 h') [
    | none ↦ none
    | some h'' ↦ some (q ++ (move_construct x).0 ∷ [], h'')
  ]
]

-- `pop()` on every object, oldest first.
unfoldable pub destroy_all : List (ObjInfo ℕ) → Heap → Option Heap
destroy_all [] h = some h
destroy_all (x ∷ q) h = elim (destroy x h) [ none ↦ none | some h' ↦ destroy_all q h' ]

-- Emptying the queue frees each array once and leaves just the arrays in `base`.
abbrev pub DrainsTo : (ℕ → Option (List ℕ)) → List (ObjInfo ℕ) → Heap → Type 0
DrainsTo base q h = (h' : Heap) × (destroy_all q h ≡ some h') × ((p : ℕ) → h'.cell p ≡ base p)

-- `g` has one array more than `h`.
record Extends (h g : Heap) (n : ℕ) (xs : List ℕ) : Type 0 where
  absent : h.cell n ≡ none
  others : (p : ℕ) → g.cell p ≡ update h.cell n (some xs) p

-- The heap after the destructor, if it does not fault.
abbrev freed : ObjInfo ℕ → Heap → Heap
freed x h = if x.embeddings == 0 then h else record h { cell = update h.cell x.embeddings none }

destroy-Extends :
    (x : ObjInfo ℕ) (h g h' : Heap) (n : ℕ) (xs : List ℕ)
    → Extends h g n xs
    → destroy x h ≡ some h'
    → (g' : Heap) × (destroy x g ≡ some g') × Extends h' g' n xs
unfolding destroy
destroy-Extends x h g h' n xs v e = (
  freed x g,
  ground (arith, v.others x.embeddings),
  record { absent = ground (arith, v.absent); others = λ p. ground (arith, v.absent, v.others p) },
)

pub destroy_all-cons :
    (y : ObjInfo ℕ) (q : List (ObjInfo ℕ)) (h h' : Heap)
    → destroy_all (y ∷ q) h ≡ some h'
    → (h₁ : Heap) × (destroy y h ≡ some h₁) × (destroy_all q h₁ ≡ some h')
unfolding destroy_all
destroy_all-cons y q h h' e = elim (Option-cases (destroy y h)) [
  | inl fault ↦ cc (rw (fault, destroy_all) at e)
  | inr (h₁, a) ↦ (h₁, a, rw (a, destroy_all) at e)
]

destroys_first :
    (y : ObjInfo ℕ) (q : List (ObjInfo ℕ)) (g g₁ k : Heap)
    → destroy y g ≡ some g₁
    → destroy_all q g₁ ≡ some k
    → destroy_all (y ∷ q) g ≡ some k
unfolding destroy_all
destroys_first y q g g₁ k c f = rw (c, destroy_all) f

-- One more object, with an array of its own.
destroy_all-snoc :
    (q : List (ObjInfo ℕ)) (x : ObjInfo ℕ) (base : ℕ → Option (List ℕ)) (h g : Heap) (xs : List ℕ)
    → x.embeddings ≢ 0
    → Extends h g x.embeddings xs
    → DrainsTo base q h
    → DrainsTo base (q ++ x ∷ []) g
unfolding destroy_all destroy
destroy_all-snoc [] x base h g xs n v (h', e, d) = (
  freed x g,
  ground (arith, v.others x.embeddings),
  λ p. ground (arith, v.absent, v.others p, d p),
)
destroy_all-snoc (y ∷ q) x base h g xs n v (h', e, d) =
    let (h₁, a, b) = destroy_all-cons y q h h' e in
    let (g₁, c, v₁) = destroy-Extends y h g h₁ x.embeddings xs v a in
    let (k, f, dk) = destroy_all-snoc q x base h₁ g₁ xs n v₁ (h', b, d) in
    (k, destroys_first y (q ++ x ∷ []) g g₁ k c f, dk)

-- One more object without an array.
destroy_all-snoc_null :
    (q : List (ObjInfo ℕ)) (x : ObjInfo ℕ) (base : ℕ → Option (List ℕ)) (h : Heap)
    → x.embeddings ≡ 0
    → DrainsTo base q h
    → DrainsTo base (q ++ x ∷ []) h
unfolding destroy_all destroy
destroy_all-snoc_null [] x base h n (h', e, d) = (h', ground arith, d)
destroy_all-snoc_null (y ∷ q) x base h n (h', e, d) =
    let (h₁, a, b) = destroy_all-cons y q h h' e in
    let (k, f, dk) = destroy_all-snoc_null q x base h₁ n (h', b, d) in
    (k, destroys_first y (q ++ x ∷ []) h h₁ k a f, dk)

enqueue_without :
    (o : ObjInfo (Option (List ℕ))) (q : List (ObjInfo ℕ)) (h : Heap)
    → o.embeddings ≡ none
    → enqueue o q h ≡ some (q ++ with_embeddings o 0 ∷ [], h)
unfolding enqueue construct move_construct destroy
enqueue_without o q h e = ground arith

enqueue_with :
    (o : ObjInfo (Option (List ℕ))) (q : List (ObjInfo ℕ)) (h : Heap) (xs : List ℕ)
    → o.embeddings ≡ some xs
    → o.embeddings_size ≤ length xs
    → enqueue o q h
      ≡ some (q ++ with_embeddings o (suc h.next) ∷ [], (allocate (take o.embeddings_size xs) h).1)
unfolding enqueue construct move_construct destroy
enqueue_with o q h xs e le = ground arith

-- To make an object and push it succeeds where its embeddings are there in full. The queue then shows
-- the object after those that it showed before, with just the floats that its size asks for, and what
-- is added to the heap is just what the queue frees: if emptying the queue led to the arrays of
-- `base` before, it does so after, freeing each array once.
pub enqueue-DrainsTo :
    (o : ObjInfo (Option (List ℕ))) (q : List (ObjInfo ℕ)) (h : Heap) (base : ℕ → Option (List ℕ))
    (rs : List (ObjInfo (Option (List ℕ))))
    → IsReadable o
    → IsHeap h
    → DrainsTo base q h
    → Shows h q rs
    → (q' : List (ObjInfo ℕ)) × (h' : Heap) × (enqueue o q h ≡ some (q', h'))
      × IsHeap h'
      × DrainsTo base q' h'
      × Shows h' q' (rs ++ recorded o ∷ [])
enqueue-DrainsTo o q h base rs (inl e) v d w = (
  q ++ with_embeddings o 0 ∷ [],
  h,
  enqueue_without o q h e,
  v,
  destroy_all-snoc_null q (with_embeddings o 0) base h refl d,
  Shows-snoc h q rs (with_embeddings o 0) (recorded o) w (recorded-IsReadable o (inl e))
      (view-null o h e),
)
enqueue-DrainsTo o q h base rs (inr (xs, e, le)) v d w =
    let new = take o.embeddings_size xs in
    let h' = (allocate new h).1 in
    (
      q ++ with_embeddings o (suc h.next) ∷ [],
      h',
      enqueue_with o q h xs e le,
      λ p lt. ground (arith, v p),
      destroy_all-snoc q (with_embeddings o (suc h.next)) base h h' new (λ z. cc)
          (record { absent = v (suc h.next) (omega arith); others = λ p. refl }) d,
      Shows-snoc h' q rs (with_embeddings o (suc h.next)) (recorded o)
          (Shows-allocate h q rs new v w) (recorded-IsReadable o (inr (xs, e, le)))
          (view-fresh o h xs e),
    )
