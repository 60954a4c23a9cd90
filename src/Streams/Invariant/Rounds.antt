-- ===== src/Streams/Invariant/Rounds.antt =====
-- `check_performance` returns and keeps the invariant: one stream, then the loop.
use demo_colombia.Base.{
  ℕ, zero, suc, ◌+◌, ◌≤◌, ◌<◌, ◌^◌, ◌≡◌, refl, sym, ap, subst, inl, inr, true, ◌∷◌, some, arith,
  ltb, lt→ltb, ◌==◌, is_some, Bool-cases, Option-cases,
}
use demo_colombia.Text.{Bytes}
use demo_colombia.Gst.{Env, History, Settings, pure, name, current_timestamp}
use demo_colombia.Gst.Ensures.{Returns, >>=-Returns}
use demo_colombia.Pipeline.{Pipeline, StreamSourceInfo}
use demo_colombia.Streams.{stream_at, read_stream, increment}
use demo_colombia.Streams.Watchdog.{
  count_silence, watch_stream, reset_frame_count, check_stream, check_from, check_performance,
}
use demo_colombia.Streams.Invariant.{Stage, IsWatched, IsSound, HasSettings}
use demo_colombia.Streams.Invariant.Writes.{write_stream-IsSound}
use demo_colombia.Streams.Invariant.Preservation.{recover-IsSound, Stage-small, Stage-bound}

-- A count that the invariant bounds does not overflow.
pub increment_small : (n : ℕ) → n ≤ 31 → increment n ≡ pure (n + 1)
unfolding increment
increment_small n h = rw (lt→ltb (n + 1) (2 ^ 31) (omega arith))

-- A filled cell is read as it is.
pub read_stream_filled :
    (p : Pipeline) (i : ℕ) (s : StreamSourceInfo)
    → stream_at p i ≡ some s
    → read_stream p i ≡ pure s
unfolding read_stream
read_stream_filled p i s e = rw (e, read_stream)

module _ (count size : ℕ) (c : Settings) (ok : HasSettings c) (env : Env) where
  abbrev Sound : Pipeline → Type 0
  Sound = IsSound count size c

  count_silence-IsSound :
      (time : Bytes) (p : Pipeline) (i : ℕ) (s : StreamSourceInfo) (b : ℕ) (h : History)
      → Sound p
      → IsWatched size s
      → s.source_bin ≡ some b
      → Returns Sound (count_silence time p i s env h).0
  unfolding count_silence
  count_silence-IsSound time p i s b h v w bin =
      let st : Stage s.reset (some b) s.no_frame_count =
        subst (λ q. Stage s.reset q s.no_frame_count) bin w.stage in
      let few = Stage-bound s.reset b s.no_frame_count st in
      let s' : StreamSourceInfo = record s { no_frame_count = s.no_frame_count + 1 } in
      rw (increment_small s.no_frame_count (omega (arith, few)))
        (elim (Bool-cases (ltb 20 (s.no_frame_count + 1))) [
          | inl long ↦ rw long (
              recover-IsSound count size c s.reset p i s' s.no_frame_count b env _ ok v w.in_array
                refl bin st refl)
          | inr short ↦ rw short (
              write_stream-IsSound count size c p i s' v (record {
                stage =
                    subst (λ q. Stage s.reset q (s.no_frame_count + 1)) (sym bin)
                      (Stage-small s.reset b s.no_frame_count (s.no_frame_count + 1) st
                        (ground arith));
                in_array = w.in_array;
              }))
        ])

  watch_stream-IsSound :
      (time : Bytes) (p : Pipeline) (i : ℕ) (s : StreamSourceInfo) (h : History)
      → Sound p
      → IsWatched size s
      → Returns Sound (watch_stream time p i s env h).0
  unfolding watch_stream
  watch_stream-IsSound time p i s h v w = elim (Option-cases s.source_bin) [
    | inl gone ↦ rw (ap is_some gone) v
    | inr (b, bin) ↦ rw (ap is_some bin) (elim (Bool-cases (s.frame_count == 0)) [
      | inl silent ↦ rw silent (count_silence-IsSound time p i s b h v w bin)
      | inr seen ↦ rw seen (
          write_stream-IsSound count size c p i (record s { no_frame_count = 0 }) v
            (record {
              stage =
                  subst (λ q. Stage s.reset q 0) (sym bin)
                    (Stage-small s.reset b s.no_frame_count 0
                      (subst (λ q. Stage s.reset q s.no_frame_count) bin w.stage) (omega arith));
              in_array = w.in_array;
            }))
    ])
  ]

  reset_frame_count-IsSound :
      (p : Pipeline) (i : ℕ) (h : History)
      → i < count
      → Sound p
      → Returns Sound (reset_frame_count i p env h).0
  unfolding reset_frame_count
  reset_frame_count-IsSound p i h lt v =
      let (s, e) = v.filled i lt in
      let w = v.watched i s e in
      rw (read_stream_filled p i s e) (
        write_stream-IsSound count size c p i (record s { frame_count = 0 }) v
          (record { stage = w.stage; in_array = w.in_array }))

  pub check_stream-IsSound :
      (p : Pipeline) (i : ℕ) (h : History)
      → i < count
      → Sound p
      → Returns Sound (check_stream p i env h).0
  unfolding check_stream
  check_stream-IsSound p i h lt v =
      let (s, e) = v.filled i lt in
      let time = env.names h current_timestamp in
      rw (read_stream_filled p i s e) (
        >>=-Returns Sound Sound (reset_frame_count i) env (watch_stream time p i s)
          ((current_timestamp, name time) ∷ h)
          (watch_stream-IsSound time p i s _ v (v.watched i s e))
          (λ p' h' v'. reset_frame_count-IsSound p' i h' lt v'))

  check_from-IsSound :
      (rounds i : ℕ) (p : Pipeline) (h : History)
      → i + rounds ≤ count
      → Sound p
      → Returns Sound (check_from rounds i p env h).0
  unfolding check_from
  check_from-IsSound zero i p h lt v = v
  check_from-IsSound (suc rounds) i p h lt v =
      >>=-Returns Sound Sound (check_from rounds (suc i)) env (check_stream p i) h
        (check_stream-IsSound p i h (omega arith) v)
        (λ p' h' v'. check_from-IsSound rounds (suc i) p' h' (omega arith) v')

  -- Whatever GStreamer answers: if the counted cells are filled, the settings are complete, and each
  -- stream has a pad index inside the array and is in one of the three stages that occur,
  -- `check_performance` returns, asks to be called
  -- again, and leaves the streams so; in particular no second of silence is counted past 31, so the
  -- counters do not overflow, and no cell outside the array or without a value is read.
  pub check_performance-IsSound :
      (p : Pipeline) (h : History)
      → Sound p
      → Returns (λ r. Sound r.0 × (r.1 ≡ true)) (check_performance p env h).0
  unfolding check_performance
  check_performance-IsSound p h v =
      >>=-Returns Sound (λ r. Sound r.0 × (r.1 ≡ true)) (λ p'. pure (p', true)) env
        (check_from p.num_sources 0 p) h
        (check_from-IsSound p.num_sources 0 p h (omega (arith, v.counted)) v)
        (λ p' h' v'. (v', refl))
