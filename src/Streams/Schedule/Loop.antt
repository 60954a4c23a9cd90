-- ===== src/Streams/Schedule/Loop.antt =====
-- One call of `check_performance` moves every counted stream by one abstract second.
use demo_colombia.Base.{
  ℕ, zero, suc, ◌+◌, ◌≤◌, ◌<◌, ◌≡◌, refl, sym, ap, ◌∙◌, subst, true, ◌∷◌, some, length, arith,
}
use native.Mathlib.Decide.{ℕ_discrete}
use demo_colombia.Base.Int.{pos}
use demo_colombia.Gst.{Env, History, Settings, pure, name, current_timestamp}
use demo_colombia.Gst.Ensures.{Returns, >>=-Returns, Returns-map, Returns-both}
use demo_colombia.Pipeline.{Pipeline, StreamSourceInfo}
use demo_colombia.Streams.{stream_at, write_stream}
use demo_colombia.Streams.Watchdog.{
  watch_stream, reset_frame_count, check_stream, check_from, check_performance,
}
use demo_colombia.Streams.Invariant.{IsWatched, IsSound, HasSettings}
use demo_colombia.Streams.Invariant.Writes.{lt-length_of_stream_at}
use demo_colombia.Streams.Invariant.Rounds.{read_stream_filled, check_stream-IsSound}
use demo_colombia.Streams.Schedule.{WatchStep, Second, Second-pad_index}
use demo_colombia.Streams.Schedule.Cells.{Moves, write-Moves, Moves-trans}
use demo_colombia.Streams.Schedule.Refinement.{watch_stream-Moves}

-- Every stream stands in the cell of its own pad index.
abbrev pub IsOwn : Pipeline → Type 0
IsOwn p = (j : ℕ) (t : StreamSourceInfo) → stream_at p j ≡ some t → t.pad_index ≡ pos j

some_injective : {a b : StreamSourceInfo} → some a ≡ some b → a ≡ b
some_injective h = cc

module _ (env : Env) where
  reset_frame_count-Moves :
      (p q : Pipeline) (i : ℕ) (t : StreamSourceInfo) (h : History)
      → Moves i p (WatchStep t) q
      → Returns (Moves i p (Second t)) (reset_frame_count i q env h).0
  unfolding reset_frame_count
  reset_frame_count-Moves p q i t h (u, e, st, o) = rw (read_stream_filled q i u e) (
      Moves-trans (WatchStep t) (Second t) p q (write_stream q i (record u { frame_count = 0 })) i
        (u, e, st, o)
        (write-Moves (Second t) q i (record u { frame_count = 0 }) (lt-length_of_stream_at q i e)
          (u, st, refl)))

  check_stream-Moves :
      (p : Pipeline) (i : ℕ) (t : StreamSourceInfo) (h : History)
      → stream_at p i ≡ some t
      → t.pad_index ≡ pos i
      → HasSettings p.configs
      → IsWatched (length p.streams) t
      → Returns (Moves i p (Second t)) (check_stream p i env h).0
  unfolding check_stream
  check_stream-Moves p i t h e own ok w =
      let time = env.names h current_timestamp in
      rw (read_stream_filled p i t e) (
        >>=-Returns (Moves i p (WatchStep t)) (Moves i p (Second t)) (reset_frame_count i) env
          (watch_stream time p i t) ((current_timestamp, name time) ∷ h)
          (watch_stream-Moves env p i t time _ e own ok w)
          (λ q h' m. reset_frame_count-Moves p q i t h' m))

Moves-IsOwn :
    (p q : Pipeline) (i : ℕ) (t : StreamSourceInfo)
    → stream_at p i ≡ some t
    → IsOwn p
    → Moves i p (Second t) q
    → IsOwn q
Moves-IsOwn p q i t e own (t', e', st, o) j u f = elim (ℕ_discrete i j) [
  | yes same ↦
      subst (λ k. u.pad_index ≡ pos k) same
        (ap (λ s. s.pad_index)
            (some_injective (sym f ∙ subst (λ k. stream_at q k ≡ some t') same e'))
          ∙ Second-pad_index t t' st
          ∙ own i t e)
  | no other ↦ own j u (sym (o j other) ∙ f)
]

module _ (count size : ℕ) (c : Settings) (ok : HasSettings c) (env : Env) where
  -- What the loop from `i` on does to the array.
  record Looped (i : ℕ) (p p' : Pipeline) : Type 0 where
    sound : IsSound count size c p'
    own : IsOwn p'
    before : (j : ℕ) → j < i → stream_at p' j ≡ stream_at p j
    after :
        (j : ℕ) (t : StreamSourceInfo)
        → i ≤ j
        → j < count
        → stream_at p j ≡ some t
        → (t' : StreamSourceInfo) × (stream_at p' j ≡ some t') × Second t t'

  Looped-suc :
      (i : ℕ) (p q p' : Pipeline) (t : StreamSourceInfo)
      → stream_at p i ≡ some t
      → Moves i p (Second t) q
      → Looped (suc i) q p'
      → Looped i p p'
  Looped-suc i p q p' t e (t', e', st, o) l = record {
    sound = l.sound;
    own = l.own;
    before = λ j lt. l.before j (omega arith) ∙ o j (omega arith);
    after = λ j u le lt f. elim (ℕ_discrete i j) [
      | yes same ↦ (
        t',
        subst (λ k. stream_at p' k ≡ some t') same (l.before i (omega arith) ∙ e'),
        subst (λ s. Second s t')
            (some_injective (sym e ∙ subst (λ k. stream_at p k ≡ some u) (sym same) f)) st,
      )
      | no other ↦ l.after j u (omega arith) lt (o j other ∙ f)
    ];
  }

  check_from-Looped :
      (rounds i : ℕ) (p : Pipeline) (h : History)
      → i + rounds ≡ count
      → IsSound count size c p
      → IsOwn p
      → Returns (Looped i p) (check_from rounds i p env h).0
  unfolding check_from
  check_from-Looped zero i p h lt v own = record {
    sound = v;
    own = own;
    before = λ j _. refl;
    after = λ j t le lt' f. absurd (omega arith);
  }
  check_from-Looped (suc rounds) i p h lt v own =
      let (t, e) = v.filled i (omega arith) in
      >>=-Returns (λ q. IsSound count size c q × Moves i p (Second t) q) (Looped i p)
        (check_from rounds (suc i)) env (check_stream p i) h
        (Returns-both (IsSound count size c) (Moves i p (Second t)) (check_stream p i env h).0
          (check_stream-IsSound count size c ok env p i h (omega arith) v)
          (check_stream-Moves env p i t h e (own i t e) (subst HasSettings (sym v.configured) ok)
            (subst (λ n. IsWatched n t) (sym v.sized) (v.watched i t e))))
        (λ q h' m.
          Returns-map (Looped (suc i) q) (Looped i p) (check_from rounds (suc i) q env h').0
            (λ p' l. Looped-suc i p q p' t e m.1 l)
            (check_from-Looped rounds (suc i) q h' (omega arith) m.0
              (Moves-IsOwn p q i t e own m.1)))

  -- `check_performance` refines the abstract watchdog, whatever GStreamer answers: where every stream
  -- stands in the cell of its own pad index and the invariant holds, it returns, and each counted
  -- stream has moved by exactly one abstract second.
  pub check_performance-Second :
      (p : Pipeline) (h : History)
      → IsSound count size c p
      → IsOwn p
      → Returns
          (λ r.
            IsOwn r.0
            × ((j : ℕ) (t : StreamSourceInfo)
                → j < count
                → stream_at p j ≡ some t
                → (t' : StreamSourceInfo) × (stream_at r.0 j ≡ some t') × Second t t'))
          (check_performance p env h).0
  unfolding check_performance
  check_performance-Second p h v own =
      >>=-Returns (Looped 0 p) _ (λ p'. pure (p', true)) env (check_from p.num_sources 0 p) h
        (check_from-Looped p.num_sources 0 p h (omega (arith, v.counted)) v own)
        (λ p' h' l. (l.own, λ j t lt e. l.after j t (omega arith) lt e))
