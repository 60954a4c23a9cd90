-- ===== src/ObjInfo/View.antt =====
-- What a reader of the heap sees of the objects in a queue: embeddings in place of pointers.
use demo_colombia.Base.{
  length-take_all, inr, ◌≤◌, ◌⊎◌, inl, ℕ, suc, ◌≡◌, refl, Option, none, some, List, [], ◌∷◌, ◌++◌,
  ◌==◌, if◌then◌else◌, length, take, arith,
}
use demo_colombia.ObjInfo.{ObjInfo, Heap, with_embeddings, allocate}
use demo_colombia.ObjInfo.Ownership.{IsHeap}

-- A dangling pointer shows nothing.
abbrev pub view : Heap → ObjInfo ℕ → Option (ObjInfo (Option (List ℕ)))
view h x =
    if x.embeddings == 0
    then some (with_embeddings x none)
    else elim (h.cell x.embeddings) [ none ↦ none | some xs ↦ some (with_embeddings x (some xs)) ]

-- The embeddings, if any, are there in full.
abbrev pub IsReadable : ObjInfo (Option (List ℕ)) → Type 0
IsReadable o =
    (o.embeddings ≡ none)
    ⊎ ((xs : List ℕ) × (o.embeddings ≡ some xs) × (o.embeddings_size ≤ length xs))

-- The queue shows these objects, oldest first, and they can be read in full.
abbrev pub Shows : Heap → List (ObjInfo ℕ) → List (ObjInfo (Option (List ℕ))) → Type 0
Shows h [] [] = Unit
Shows h (x ∷ q) (r ∷ rs) = (view h x ≡ some r) × IsReadable r × Shows h q rs
Shows h [] (r ∷ rs) = ⊥
Shows h (x ∷ q) [] = ⊥

-- The object with just the floats that its size asks for.
abbrev pub recorded : ObjInfo (Option (List ℕ)) → ObjInfo (Option (List ℕ))
recorded o =
    with_embeddings o
      (elim o.embeddings [ none ↦ none | some xs ↦ some (take o.embeddings_size xs) ])

pub Shows-length :
    (h : Heap) (q : List (ObjInfo ℕ)) (rs : List (ObjInfo (Option (List ℕ))))
    → Shows h q rs
    → length q ≡ length rs
Shows-length h [] [] s = refl
Shows-length h (x ∷ q) (r ∷ rs) s = omega (arith, Shows-length h q rs s.2)
Shows-length h [] (r ∷ rs) s = absurd s
Shows-length h (x ∷ q) [] s = absurd s

-- A new array leaves what was seen.
view-allocate :
    (h : Heap) (x : ObjInfo ℕ) (r : ObjInfo (Option (List ℕ))) (xs : List ℕ)
    → IsHeap h
    → view h x ≡ some r
    → view (allocate xs h).1 x ≡ some r
view-allocate h x r xs v e = ground (arith, v (suc h.next))

pub Shows-allocate :
    (h : Heap) (q : List (ObjInfo ℕ)) (rs : List (ObjInfo (Option (List ℕ)))) (xs : List ℕ)
    → IsHeap h
    → Shows h q rs
    → Shows (allocate xs h).1 q rs
Shows-allocate h [] [] xs v s = tt
Shows-allocate h (x ∷ q) (r ∷ rs) xs v (e, d, s) =
    (view-allocate h x r xs v e, d, Shows-allocate h q rs xs v s)
Shows-allocate h [] (r ∷ rs) xs v s = absurd s
Shows-allocate h (x ∷ q) [] xs v s = absurd s

pub Shows-snoc :
    (h : Heap) (q : List (ObjInfo ℕ)) (rs : List (ObjInfo (Option (List ℕ)))) (x : ObjInfo ℕ)
    (r : ObjInfo (Option (List ℕ)))
    → Shows h q rs
    → IsReadable r
    → view h x ≡ some r
    → Shows h (q ++ x ∷ []) (rs ++ r ∷ [])
Shows-snoc h [] [] x r s d e = (e, d, tt)
Shows-snoc h (y ∷ q) (t ∷ rs) x r (f, c, s) d e = (f, c, Shows-snoc h q rs x r s d e)
Shows-snoc h [] (t ∷ rs) x r s d e = absurd s
Shows-snoc h (y ∷ q) [] x r s d e = absurd s

-- An object with a fresh array shows what is in it.
pub view-fresh :
    (o : ObjInfo (Option (List ℕ))) (h : Heap) (xs : List ℕ)
    → o.embeddings ≡ some xs
    → view (allocate (take o.embeddings_size xs) h).1 (with_embeddings o (suc h.next))
      ≡ some (recorded o)
view-fresh o h xs e = ground arith

pub view-null :
    (o : ObjInfo (Option (List ℕ))) (h : Heap)
    → o.embeddings ≡ none
    → view h (with_embeddings o 0) ≡ some (recorded o)
view-null o h e = ground arith

pub recorded-IsReadable : (o : ObjInfo (Option (List ℕ))) → IsReadable o → IsReadable (recorded o)
recorded-IsReadable o (inl e) = inl (ground arith)
recorded-IsReadable o (inr (xs, e, le)) = inr (
  take o.embeddings_size xs,
  ground arith,
  omega (arith, length-take_all o.embeddings_size xs le),
)
