-- ===== src/Streams/Invariant/Writes.antt =====
-- Writes to the array keep the invariant where the stream written is well formed.
use native.Mathlib.Decide.{ℕ_discrete}
use demo_colombia.Base.{
  ℕ, ◌<◌, ◌≡◌, sym, ◌∙◌, ap, subst, ◌⊎◌, inl, inr, none, some, Option, List, [], ◌∷◌, zero, suc,
  length, length-set, get_elem?, get_elem?-set_self, get_elem?-set_ne, get_elem?-set_cases, set-set,
  arith,
}
use demo_colombia.Gst.{Settings}
use demo_colombia.Pipeline.{Pipeline, StreamSourceInfo}
use demo_colombia.Streams.{stream_at, write_stream, flat}
use demo_colombia.Streams.Invariant.{IsSound, IsWatched}

lt-length_of_get_elem? {ℓ} :
    {A : Type ℓ} (xs : List A) (i : ℕ) {a : A} → get_elem? xs i ≡ some a → i < length xs
lt-length_of_get_elem? [] i e = cc
lt-length_of_get_elem? (x ∷ xs) zero e = omega arith
lt-length_of_get_elem? (x ∷ xs) (suc i) e = omega (arith, lt-length_of_get_elem? xs i e)

flat-some :
    (o : Option (Option StreamSourceInfo)) {s : StreamSourceInfo}
    → flat o ≡ some s
    → o ≡ some (some s)
flat-some none e = cc
flat-some (some o) e = cc

pub lt-length_of_stream_at :
    (p : Pipeline) (i : ℕ) {s : StreamSourceInfo} → stream_at p i ≡ some s → i < length p.streams
lt-length_of_stream_at p i e =
    lt-length_of_get_elem? p.streams i (flat-some (get_elem? p.streams i) e)

-- Reading back a write inside the array.
pub stream_at-write_self :
    (p : Pipeline) (i : ℕ) (s : StreamSourceInfo)
    → i < length p.streams
    → stream_at (write_stream p i s) i ≡ some s
stream_at-write_self p i s h = ap flat (get_elem?-set_self p.streams i (some s) h)

pub write-write_stream :
    (p : Pipeline) (i : ℕ) (s t : StreamSourceInfo)
    → write_stream (write_stream p i s) i t ≡ write_stream p i t
write-write_stream p i s t =
    ap (λ xs. record p { streams = xs }) (set-set p.streams i (some s) (some t))

-- What a cell holds after a write.
pub stream_at-write_cases :
    (p : Pipeline) (i j : ℕ) (s t : StreamSourceInfo)
    → stream_at (write_stream p i s) j ≡ some t
    → (t ≡ s) ⊎ (stream_at p j ≡ some t)
stream_at-write_cases p i j s t e =
    elim (get_elem?-set_cases p.streams i j (some s) (some t) (flat-some _ e)) [
      | inl new ↦ inl (cc)
      | inr old ↦ inr (ap flat old)
    ]

pub filled-write :
    (p : Pipeline) (i j : ℕ) (s : StreamSourceInfo)
    → (t : StreamSourceInfo) × (stream_at p j ≡ some t)
    → (t : StreamSourceInfo) × (stream_at (write_stream p i s) j ≡ some t)
filled-write p i j s (t, e) = elim (ℕ_discrete i j) [
  | yes same ↦ (
    s,
    subst (λ k. stream_at (write_stream p i s) k ≡ some s) same
        (stream_at-write_self p i s
          (subst (λ k. k < length p.streams) (sym same) (lt-length_of_stream_at p j e))),
  )
  | no other ↦ (t, ap flat (get_elem?-set_ne p.streams (some s) other) ∙ e)
]

pub write_stream-IsSound :
    (count size : ℕ) (c : Settings) (p : Pipeline) (i : ℕ) (s : StreamSourceInfo)
    → IsSound count size c p
    → IsWatched size s
    → IsSound count size c (write_stream p i s)
write_stream-IsSound count size c p i s v w = record {
  counted = v.counted;
  sized = length-set p.streams i (some s) ∙ v.sized;
  configured = v.configured;
  filled = λ j h. filled-write p i j s (v.filled j h);
  watched = λ j t e. elim (stream_at-write_cases p i j s t e) [
    | inl new ↦ subst (IsWatched size) (sym new) w
    | inr old ↦ v.watched j t old
  ];
}
