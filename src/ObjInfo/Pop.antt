-- ===== src/ObjInfo/Pop.antt =====
-- The front object is popped: what the queue shows and frees afterwards.
use demo_colombia.Base.{
  ℕ, ◌≡◌, refl, ◌∙◌, ◌⊎◌, inl, inr, Option, some, List, [], ◌∷◌, Option-cases, arith,
}
use demo_colombia.ObjInfo.{ObjInfo, Heap, destroy}
use demo_colombia.ObjInfo.Ownership.{IsHeap}
use demo_colombia.ObjInfo.View.{view, Shows}
use demo_colombia.ObjInfo.Queue.{destroy_all, DrainsTo, destroy_all-cons}

-- Each object has no array, or one that is not yet freed.
abbrev AreAlive : (ℕ → Option (List ℕ)) → List (ObjInfo ℕ) → Type 0
AreAlive cell [] = Unit
AreAlive cell (y ∷ q) =
    ((y.embeddings ≡ 0) ⊎ ((xs : List ℕ) × (cell y.embeddings ≡ some xs))) × AreAlive cell q

-- What is there after the destructor was there before it.
destroy-was_there :
    (x : ObjInfo ℕ) (g g' : Heap) (p : ℕ) (xs : List ℕ)
    → destroy x g ≡ some g'
    → g'.cell p ≡ some xs
    → g.cell p ≡ some xs
unfolding destroy
destroy-was_there x g g' p xs e f = ground arith

AreAlive-before :
    (x : ObjInfo ℕ) (g g' : Heap) (q : List (ObjInfo ℕ))
    → destroy x g ≡ some g'
    → AreAlive g'.cell q
    → AreAlive g.cell q
AreAlive-before x g g' [] e a = tt
AreAlive-before x g g' (y ∷ q) e (inl z, a) = (inl z, AreAlive-before x g g' q e a)
AreAlive-before x g g' (y ∷ q) e (inr (xs, f), a) =
    (inr (xs, destroy-was_there x g g' y.embeddings xs e f), AreAlive-before x g g' q e a)

destroy-alive :
    (y : ObjInfo ℕ) (g g' : Heap)
    → destroy y g ≡ some g'
    → (y.embeddings ≡ 0) ⊎ ((xs : List ℕ) × (g.cell y.embeddings ≡ some xs))
unfolding destroy
destroy-alive y g g' e = elim (Option-cases (g.cell y.embeddings)) [
  | inl gone ↦ inl (ground (arith, gone))
  | inr there ↦ inr there
]

-- A queue that can be emptied has no object whose array was freed.
destroy_all-AreAlive :
    (q : List (ObjInfo ℕ)) (g g' : Heap) → destroy_all q g ≡ some g' → AreAlive g.cell q
destroy_all-AreAlive [] g g' e = tt
destroy_all-AreAlive (y ∷ q) g g' e =
    let (g₁, a, b) = destroy_all-cons y q g g' e in
    (destroy-alive y g g₁ a, AreAlive-before y g g₁ q a (destroy_all-AreAlive q g₁ g' b))

view-destroy :
    (x y : ObjInfo ℕ) (h h₁ : Heap)
    → destroy x h ≡ some h₁
    → (y.embeddings ≡ 0) ⊎ ((xs : List ℕ) × (h₁.cell y.embeddings ≡ some xs))
    → view h₁ y ≡ view h y
view-destroy x y h h₁ e (inl z) = rw z refl
view-destroy x y h h₁ e (inr (xs, f)) = rw (f, destroy-was_there x h h₁ y.embeddings xs e f) refl

Shows-destroy :
    (x : ObjInfo ℕ) (h h₁ : Heap) (q : List (ObjInfo ℕ)) (rs : List (ObjInfo (Option (List ℕ))))
    → destroy x h ≡ some h₁
    → AreAlive h₁.cell q
    → Shows h q rs
    → Shows h₁ q rs
Shows-destroy x h h₁ [] [] e a s = tt
Shows-destroy x h h₁ (y ∷ q) (r ∷ rs) e (b, a) (v, d, s) =
    (view-destroy x y h h₁ e b ∙ v, d, Shows-destroy x h h₁ q rs e a s)
Shows-destroy x h h₁ [] (r ∷ rs) e a s = absurd s
Shows-destroy x h h₁ (y ∷ q) [] e a s = absurd s

destroy-IsHeap : (x : ObjInfo ℕ) (h h₁ : Heap) → destroy x h ≡ some h₁ → IsHeap h → IsHeap h₁
unfolding destroy
destroy-IsHeap x h h₁ e v p lt = ground (arith, v p)

-- The front object of a queue that can be emptied is destroyed without a fault, and the rest of the
-- queue shows what it showed, and frees what it owns.
pub destroy-front :
    (base : ℕ → Option (List ℕ)) (x : ObjInfo ℕ) (q : List (ObjInfo ℕ)) (h : Heap)
    (r : ObjInfo (Option (List ℕ))) (rs : List (ObjInfo (Option (List ℕ))))
    → IsHeap h
    → DrainsTo base (x ∷ q) h
    → Shows h (x ∷ q) (r ∷ rs)
    → (h₁ : Heap) × (destroy x h ≡ some h₁) × IsHeap h₁ × DrainsTo base q h₁ × Shows h₁ q rs
destroy-front base x q h r rs v (h', e, d) (w, c, s) =
    let (h₁, a, b) = destroy_all-cons x q h h' e in
    (
      h₁,
      a,
      destroy-IsHeap x h h₁ a v,
      (h', b, d),
      Shows-destroy x h h₁ q rs a (destroy_all-AreAlive q h₁ h' b) s,
    )
