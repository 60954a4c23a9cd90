-- ===== src/Service/Filled.antt =====
-- What the loop over the sources file leaves in the cells of the array, where the pad indices are
-- 0, 1, 2, … in order: no cell is left empty if every source was counted.
use native.Mathlib.Decide.{ℕ_discrete}
use demo_colombia.Base.{
  Option-cases, ℕ, suc, ◌+◌, ◌≤◌, ◌<◌, ◌≡◌, refl, sym, ap, subst, ◌∙◌, inl, inr, Bool, false,
  Option, none, some, List, [], ◌∷◌, length, arith,
}
use demo_colombia.Base.Int.{pos}
use demo_colombia.Text.{Bytes}
use demo_colombia.Gst.{Env, History, or_throw}
use demo_colombia.Gst.Ensures.{Ensures, >>=-Ensures, Ensures-map}
use demo_colombia.Pipeline.{Pipeline, StreamSourceInfo}
use demo_colombia.Streams.{stream_at, write_stream, new_stream, add_source}
use demo_colombia.Streams.Sources.{AddedHere, add_source-Added}
use demo_colombia.Streams.Schedule.Loop.{IsOwn}
use demo_colombia.Streams.Schedule.Cells.{stream_at-write_ne}
use demo_colombia.Streams.Invariant.Writes.{stream_at-write_self, filled-write}
use demo_colombia.Probe.{SourceEntry}
use demo_colombia.Service.{add_entry, add_sources}

-- The pad indices count up from `n`.
abbrev pub AreInOrder : ℕ → List SourceEntry → Type 0
AreInOrder n [] = Unit
AreInOrder n (s ∷ ss) = (s.pad_index ≡ some (pos n)) × AreInOrder (suc n) ss

-- After `n` entries: streams stand in their own cells and have no frames yet, at most `n` sources are
-- counted, and if `n` are, the first `n` cells are filled.
pub record IsFilled (n : ℕ) (p : Pipeline) : Type 0 where
  pub own : IsOwn p
  pub unseen : (i : ℕ) (s : StreamSourceInfo) → stream_at p i ≡ some s → s.frame_count ≡ 0
  pub few : p.num_sources ≤ n
  pub filled :
      p.num_sources ≡ n → (i : ℕ) → i < n → (s : StreamSourceInfo) × (stream_at p i ≡ some s)

or_throw-Ensures :
    {A : Type 0} (o : Option A) (env : Env) (h : History)
    → Ensures (λ a. o ≡ some a) (or_throw o env h).0
or_throw-Ensures none env h = tt
or_throw-Ensures (some a) env h = refl

-- A fresh stream is written into the cell `n`.
module _ (n : ℕ) (p : Pipeline) (uri camera_id description : Bytes) (b : ℕ)
    (lt : n < length p.streams) (v : IsFilled n p) where
  abbrev stream : StreamSourceInfo
  stream = new_stream uri camera_id (pos n) description (some b)

  abbrev written : Pipeline
  written = write_stream p n stream

  cells-write :
      (i : ℕ) (t : StreamSourceInfo)
      → stream_at written i ≡ some t
      → (t.pad_index ≡ pos i) × (t.frame_count ≡ 0)
  cells-write i t e = elim (ℕ_discrete n i) [
    | yes same ↦
        let at = some_injective (
          sym e
          ∙ subst (λ k. stream_at written k ≡ some stream) same
              (stream_at-write_self p n stream lt)) in
        (ap (λ s. s.pad_index) at ∙ ap pos same, ap (λ s. s.frame_count) at)
    | no other ↦
        let old = sym (stream_at-write_ne p n i stream other) ∙ e in
        (v.own i t old, v.unseen i t old)
  ]
    where
      some_injective : {a c : StreamSourceInfo} → some a ≡ some c → a ≡ c
      some_injective h = cc

  uncounted-IsFilled : IsFilled (suc n) written
  uncounted-IsFilled = record {
    own = λ i t e. (cells-write i t e).0;
    unseen = λ i t e. (cells-write i t e).1;
    few = omega (arith, v.few);
    filled = λ e i l. absurd (omega (arith, v.few));
  }

  counted-IsFilled : IsFilled (suc n) (record written { num_sources = p.num_sources + 1 })
  counted-IsFilled = record {
    own = λ i t e. (cells-write i t e).0;
    unseen = λ i t e. (cells-write i t e).1;
    few = omega (arith, v.few);
    filled = λ e i l. elim (ℕ_discrete n i) [
      | yes same ↦ (
        stream,
        subst (λ k. stream_at written k ≡ some stream) same (stream_at-write_self p n stream lt),
      )
      | no other ↦ filled-write p n i stream (v.filled (omega arith) i (omega arith))
    ];
  }

more-IsFilled : (n : ℕ) (p : Pipeline) → IsFilled n p → IsFilled (suc n) p
more-IsFilled n p v = record {
  own = v.own;
  unseen = v.unseen;
  few = omega (arith, v.few);
  filled = λ e i l. absurd (omega (arith, v.few));
}

pos_injective : {a b : ℕ} → pos a ≡ pos b → a ≡ b
pos_injective e = cc

AddedHere-IsFilled :
    (n : ℕ) (p p' : Pipeline) (uri camera_id description : Bytes)
    → IsFilled n p
    → AddedHere p uri camera_id (pos n) description false p'
    → IsFilled (suc n) p'
AddedHere-IsFilled n p p' uri camera_id description v (inl e) =
    subst (IsFilled (suc n)) (sym e) (more-IsFilled n p v)
AddedHere-IsFilled n p p' uri camera_id description v (inr (k, b, at, lt, inl e)) =
    let same : k ≡ n = sym (pos_injective at) in
    let here = subst (λ j. j < length p.streams) same lt in
    subst (IsFilled (suc n))
      (sym (
        subst (λ j. p' ≡ write_stream p j (new_stream uri camera_id (pos n) description (some b)))
          same e))
      (uncounted-IsFilled n p uri camera_id description b here v)
AddedHere-IsFilled n p p' uri camera_id description v (inr (k, b, at, lt, inr e)) =
    let same : k ≡ n = sym (pos_injective at) in
    let here = subst (λ j. j < length p.streams) same lt in
    subst (IsFilled (suc n))
      (sym (
        subst
          (λ j.
            p' ≡ record (write_stream p j (new_stream uri camera_id (pos n) description (some b))) {
              num_sources = p.num_sources + 1;
            })
          same e))
      (counted-IsFilled n p uri camera_id description b here v)

module _ (env : Env) where
  add_source-IsFilled :
      (nvurisrcbin : Bool) (n : ℕ) (p : Pipeline) (uri camera_id description : Bytes) (h : History)
      → IsFilled n p
      → Ensures
          (IsFilled (suc n))
          (add_source p uri camera_id (pos n) description nvurisrcbin false env h).0
  add_source-IsFilled nvurisrcbin n p uri camera_id description h v =
      Ensures-map (AddedHere p uri camera_id (pos n) description false) (IsFilled (suc n))
        (add_source p uri camera_id (pos n) description nvurisrcbin false env h).0
        (λ p' r. AddedHere-IsFilled n p p' uri camera_id description v r)
        (add_source-Added p uri camera_id (pos n) description false nvurisrcbin env h)

  add_entry-IsFilled :
      (nvurisrcbin : Bool) (s : SourceEntry) (n : ℕ) (p : Pipeline) (h : History)
      → s.pad_index ≡ some (pos n)
      → IsFilled n p
      → Ensures (IsFilled (suc n)) (add_entry nvurisrcbin s p env h).0
  unfolding add_entry
  add_entry-IsFilled nvurisrcbin s n p h at v = elim (Option-cases s.uri) [
    | inl e ↦ rw e tt
    | inr (uri, e) ↦ elim (Option-cases s.camera_id) [
      | inl f ↦ rw (e, f) tt
      | inr (camera_id, f) ↦ elim (Option-cases s.description) [
        | inl g ↦ rw (e, f, at, g) tt
        | inr (description, g) ↦
            rw (e, f, at, g) (add_source-IsFilled nvurisrcbin n p uri camera_id description h v)
      ]
    ]
  ]

  -- Whatever GStreamer answers: where the loop over the sources file, whose pad indices count up from
  -- the number of entries before, returns, every stream stands in the cell of its own pad index and has
  -- no frames, at most as many sources are counted as there were entries, and if all are, no cell of an
  -- entry is left empty.
  pub add_sources-IsFilled :
      (nvurisrcbin : Bool) (ss : List SourceEntry) (n : ℕ) (p : Pipeline) (h : History)
      → AreInOrder n ss
      → IsFilled n p
      → Ensures (IsFilled (n + length ss)) (add_sources nvurisrcbin ss p env h).0
  unfolding add_sources
  add_sources-IsFilled nvurisrcbin [] n p h o v = subst (λ k. IsFilled k p) (omega arith) v
  add_sources-IsFilled nvurisrcbin (s ∷ ss) n p h (at, o) v =
      >>=-Ensures (IsFilled (suc n)) (IsFilled (n + suc (length ss))) (add_sources nvurisrcbin ss)
        env (add_entry nvurisrcbin s p) h (add_entry-IsFilled nvurisrcbin s n p h at v)
        (λ p' h' v'.
          subst (λ k. Ensures (IsFilled k) (add_sources nvurisrcbin ss p' env h').0) (omega arith)
            (add_sources-IsFilled nvurisrcbin ss (suc n) p' h' o v'))
