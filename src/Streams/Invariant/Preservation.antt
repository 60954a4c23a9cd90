-- ===== src/Streams/Invariant/Preservation.antt =====
-- `check_performance` keeps the invariant, and returns.
use demo_colombia.Base.{
  ℕ, ◌+◌, ◌≤◌, ◌<◌, ◌≡◌, sym, ap, subst, ◌⊎◌, inl, inr, true, none, some, arith, leb, is_some,
  Bool-cases,
}
use demo_colombia.Gst.{Ptr, Env, History, Settings, pure}
use demo_colombia.Gst.Ensures.{Returns, >>=-Returns, Returns-map}
use demo_colombia.Pipeline.{
  Pipeline, StreamSourceInfo, StreamResetStates, idle, waiting, add_stream,
}
use demo_colombia.Streams.{write_stream, add_source, delete_source}
use demo_colombia.Streams.Sources.{AddedHere, InArray, add_source-Returns, delete_source-Returns}
use demo_colombia.Streams.Watchdog.{stop_stream, await_stream, readd_stream, recover}
use demo_colombia.Streams.Invariant.{Stage, IsWatched, IsSound, HasSettings}
use demo_colombia.Streams.Invariant.Writes.{write-write_stream, write_stream-IsSound}

Stage-due : (bin : Ptr) (n : ℕ) → n ≤ 30 → Stage add_stream bin n
Stage-due none n h = omega arith
Stage-due (some b) n h = h

-- A stream that is silent, but not for so long, stays in its stage.
pub Stage-small :
    (r : StreamResetStates) (b n m : ℕ) → Stage r (some b) n → m ≤ 20 → Stage r (some b) m
Stage-small idle b n m st h = h
Stage-small waiting b n m st h = omega arith
Stage-small add_stream b n m st h = omega arith
Stage-small _ b n m st h = absurd st

pub Stage-bound : (r : StreamResetStates) (b n : ℕ) → Stage r (some b) n → n ≤ 30
Stage-bound idle b n st = omega arith
Stage-bound waiting b n st = omega arith
Stage-bound add_stream b n st = st
Stage-bound _ b n st = absurd st

module _ (count size : ℕ) (c : Settings) where
  abbrev Sound : Pipeline → Type 0
  Sound = IsSound count size c

  -- A stream written over another is written once.
  twice-IsSound :
      (p : Pipeline) (i : ℕ) (s t : StreamSourceInfo)
      → Sound p
      → IsWatched size t
      → Sound (write_stream (write_stream p i s) i t)
  twice-IsSound p i s t v w =
      subst Sound (sym (write-write_stream p i s t)) (write_stream-IsSound count size c p i t v w)

  stop_stream-IsSound :
      (p : Pipeline) (i : ℕ) (s : StreamSourceInfo) (env : Env) (h : History)
      → Sound p
      → InArray size s.pad_index
      → s.no_frame_count ≤ 29
      → is_some s.source_bin ≡ true
      → Returns Sound (stop_stream (write_stream p i s) i s env h).0
  unfolding stop_stream
  stop_stream-IsSound p i s env h v a n bin = rw bin (
      >>=-Returns (λ _. Unit {0}) Sound
        (λ _. pure (write_stream (write_stream p i s) i (record s { reset = waiting }))) env
        (delete_source (write_stream p i s) s) h
        (delete_source-Returns (write_stream p i s) s env h)
        (λ _ h' _. twice-IsSound p i s _ v (record { stage = n; in_array = a })))

  await_stream-IsSound :
      (p : Pipeline) (i : ℕ) (s : StreamSourceInfo) (env : Env) (h : History)
      → Sound p
      → InArray size s.pad_index
      → s.no_frame_count ≤ 30
      → is_some s.source_bin ≡ true
      → s.reset ≡ waiting
      → Returns Sound (await_stream (write_stream p i s) i s env h).0
  unfolding await_stream
  await_stream-IsSound p i s env h v a n bin r = elim (Bool-cases (leb 30 s.no_frame_count)) [
    | inl due ↦
        rw (bin, due)
          (twice-IsSound p i s (record s { reset = add_stream }) v
            (record { stage = Stage-due s.source_bin s.no_frame_count n; in_array = a }))
    | inr early ↦
        rw (bin, early)
          (write_stream-IsSound count size c p i s v (record {
            stage = subst (λ q. Stage q s.source_bin s.no_frame_count) (sym r) (ground arith);
            in_array = a;
          }))
  ]

  AddedHere-IsSound :
      (p : Pipeline) (s : StreamSourceInfo) (p' : Pipeline)
      → Sound p
      → AddedHere p s.uri s.camera_id s.pad_index s.description true p'
      → Sound p'
  AddedHere-IsSound p s p' v (inl e) = subst Sound (sym e) v
  AddedHere-IsSound p s p' v (inr (k, b, e, lt, a)) = subst Sound (sym (once a)) (
      write_stream-IsSound count size c p k _ v
        (record { stage = omega arith; in_array = (k, e, subst (λ m. k < m) v.sized lt) }))
    where
      once : {q : Pipeline} → (p' ≡ q) ⊎ (p' ≡ q) → p' ≡ q
      once (inl x) = x
      once (inr x) = x

  readd_stream-IsSound :
      (p : Pipeline) (i : ℕ) (s : StreamSourceInfo) (env : Env) (h : History)
      → HasSettings c
      → Sound p
      → InArray size s.pad_index
      → s.no_frame_count ≤ 31
      → s.reset ≡ add_stream
      → Returns Sound (readd_stream (write_stream p i s) i s env h).0
  unfolding readd_stream
  readd_stream-IsSound p i s env h ok v a n r =
      let q : Pipeline = write_stream (write_stream p i s) i (record s { source_bin = none }) in
      let w : Sound q =
        twice-IsSound p i s _ v
          (record { stage = subst (λ x. Stage x none s.no_frame_count) (sym r) n; in_array = a }) in
      Returns-map (AddedHere q s.uri s.camera_id s.pad_index s.description true) Sound
        (add_source q s.uri s.camera_id s.pad_index s.description true true env h).0
        (λ p' d. AddedHere-IsSound q s p' w d)
        (add_source-Returns q s.uri s.camera_id s.pad_index s.description true true env h
          (subst (λ m. InArray m s.pad_index) (sym w.sized) a)
          (subst HasSettings (sym w.configured) ok s.pad_index))

  -- The `switch`, at a stream that has been silent for more than twenty seconds.
  pub recover-IsSound :
      (r : StreamResetStates) (p : Pipeline) (i : ℕ) (s : StreamSourceInfo) (n : ℕ) (b : ℕ)
      (env : Env) (h : History)
      → HasSettings c
      → Sound p
      → InArray size s.pad_index
      → s.reset ≡ r
      → s.source_bin ≡ some b
      → Stage r (some b) n
      → s.no_frame_count ≡ n + 1
      → Returns Sound (recover r (write_stream p i s) i s env h).0
  unfolding recover
  recover-IsSound idle p i s n b env h ok v a r bin st e =
      stop_stream-IsSound p i s env h v a (omega arith) (ap is_some bin)
  recover-IsSound waiting p i s n b env h ok v a r bin st e =
      await_stream-IsSound p i s env h v a (omega arith) (ap is_some bin) r
  recover-IsSound add_stream p i s n b env h ok v a r bin st e =
      readd_stream-IsSound p i s env h ok v a (omega arith) r
  recover-IsSound _ p i s n b env h ok v a r bin st e = absurd st
