-- ===== src/Streams/Schedule/Cells.antt =====
-- What a routine does to one cell of the array, the other cells being left alone.
use demo_colombia.Base.{ℕ, ◌<◌, ◌≡◌, ◌≢◌, sym, ap, ◌∙◌, subst, some, length, get_elem?-set_ne}
use demo_colombia.Pipeline.{Pipeline, StreamSourceInfo}
use demo_colombia.Streams.{stream_at, write_stream, flat}
use demo_colombia.Streams.Invariant.Writes.{stream_at-write_self, write-write_stream}

-- The cell holds a stream with the property, and no other cell has changed.
abbrev pub Moves : ℕ → Pipeline → (StreamSourceInfo → Type 0) → Pipeline → Type 0
Moves i p P p' =
    (t : StreamSourceInfo) × (stream_at p' i ≡ some t)
    × P t
    × ((j : ℕ) → i ≢ j → stream_at p' j ≡ stream_at p j)

pub stream_at-write_ne :
    (p : Pipeline) (i j : ℕ) (s : StreamSourceInfo)
    → i ≢ j
    → stream_at (write_stream p i s) j ≡ stream_at p j
stream_at-write_ne p i j s ne = ap flat (get_elem?-set_ne p.streams (some s) ne)

pub write-Moves :
    (P : StreamSourceInfo → Type 0) (p : Pipeline) (i : ℕ) (t : StreamSourceInfo)
    → i < length p.streams
    → P t
    → Moves i p P (write_stream p i t)
write-Moves P p i t h x =
    (t, stream_at-write_self p i t h, x, λ j ne. stream_at-write_ne p i j t ne)

pub Moves-trans :
    (P Q : StreamSourceInfo → Type 0) (p q r : Pipeline) (i : ℕ)
    → Moves i p P q
    → Moves i q Q r
    → Moves i p Q r
Moves-trans P Q p q r i (t, e, x, o) (t', e', x', o') = (t', e', x', λ j ne. o' j ne ∙ o j ne)

-- A cell that is known to hold a stream holds no other.
pub Moves-unique :
    (P : StreamSourceInfo → Type 0) (p q : Pipeline) (i : ℕ) (t : StreamSourceInfo)
    → Moves i p P q
    → stream_at q i ≡ some t
    → P t
Moves-unique P p q i t (u, e, x, o) f = subst P (some_injective (sym e ∙ f)) x
  where
    some_injective : {a b : StreamSourceInfo} → some a ≡ some b → a ≡ b
    some_injective h = cc

pub twice-Moves :
    (P : StreamSourceInfo → Type 0) (p : Pipeline) (i : ℕ) (s t : StreamSourceInfo)
    → i < length p.streams
    → P t
    → Moves i p P (write_stream (write_stream p i s) i t)
twice-Moves P p i s t h x =
    subst (Moves i p P) (sym (write-write_stream p i s t)) (write-Moves P p i t h x)
