-- ===== src/Service/Loop/Fed.antt =====
-- Streams that bring frames are left alone by the watchdog.
use demo_colombia.Base.{ℕ, ◌+◌, ◌<◌, ◌≡◌, sym, ap, ◌∙◌, true, is_some, Option, some, List, arith}
use demo_colombia.Gst.{Env, History, Settings}
use demo_colombia.Gst.Ensures.{Returns, Returns-map}
use demo_colombia.Pipeline.{Pipeline, StreamSourceInfo}
use demo_colombia.Streams.{stream_at}
use demo_colombia.Streams.Watchdog.{check_performance}
use demo_colombia.Streams.Invariant.{IsSound, HasSettings}
use demo_colombia.Streams.Schedule.{
  WatchStep, unwatched, alive, silent, deleted, waits, due, readded, lost,
}
use demo_colombia.Streams.Schedule.Loop.{IsOwn, check_performance-Second}
use demo_colombia.Probe.{FrameMeta}
use demo_colombia.Probe.Frames.{frames_of, Counts, add_frames}

-- The streams of `p`, with the frames that each has seen.
abbrev pub IsFed : ℕ → Pipeline → (ℕ → ℕ) → Pipeline → Type 0
IsFed count p seen q =
    (i : ℕ) (t : StreamSourceInfo)
    → i < count
    → stream_at p i ≡ some t
    → stream_at q i ≡ some (record t { frame_count = seen i })

-- The counted streams have a bin and no second of silence.
abbrev pub AreLively : ℕ → Pipeline → Type 0
AreLively count p =
    (i : ℕ) (t : StreamSourceInfo)
    → i < count
    → stream_at p i ≡ some t
    → (is_some t.source_bin ≡ true) × (t.no_frame_count ≡ 0)

-- A second with a frame changes nothing but the frame counter.
WatchStep-fed :
    (t u : StreamSourceInfo) (n : ℕ)
    → is_some t.source_bin ≡ true
    → t.no_frame_count ≡ 0
    → 0 < n
    → WatchStep (record t { frame_count = n }) u
    → record u { frame_count = 0 } ≡ record t { frame_count = 0 }
WatchStep-fed t u n bin still lt (unwatched e) = cc
WatchStep-fed t u n bin still lt (alive a b) =
    ap (λ k. record t { frame_count = 0; no_frame_count = k }) (sym still)
WatchStep-fed t u n bin still lt (silent a b d) = absurd (omega arith)
WatchStep-fed t u n bin still lt (deleted a b d e) = absurd (omega arith)
WatchStep-fed t u n bin still lt (waits a b d e f) = absurd (omega arith)
WatchStep-fed t u n bin still lt (due a b d e) = absurd (omega arith)
WatchStep-fed t u n bin still lt (readded b a d e f) = absurd (omega arith)
WatchStep-fed t u n bin still lt (lost a b d e) = absurd (omega arith)

some_injective : {a b : StreamSourceInfo} → some a ≡ some b → a ≡ b
some_injective h = cc

pub check_performance-IsFed :
    (count size : ℕ) (c : Settings) (ok : HasSettings c) (env : Env) (p q : Pipeline) (seen : ℕ → ℕ)
    (h : History)
    → AreLively count p
    → ((i : ℕ) → i < count → 0 < seen i)
    → IsSound count size c q
    → IsOwn q
    → IsFed count p seen q
    → Returns (λ r. IsFed count p (λ i. 0) r.0) (check_performance q env h).0
check_performance-IsFed count size c ok env p q seen h lively some_frames v own fed =
    Returns-map _ (λ r. IsFed count p (λ i. 0) r.0) (check_performance q env h).0
      (λ r m i t lt e.
        let (bin, still) = lively i t lt e in
        let (t', f, (u, st, g)) = m.1 i (record t { frame_count = seen i }) lt (fed i t lt e) in
        f ∙ ap some (g ∙ WatchStep-fed t u (seen i) bin still (some_frames i lt) st))
      (check_performance-Second count size c ok env q h v own)

pub Counts-IsFed :
    (count : ℕ) (p q q' : Pipeline) (seen : ℕ → ℕ) (fs : List (Option FrameMeta))
    → Counts q fs q'
    → IsFed count p seen q
    → IsFed count p (λ i. seen i + frames_of i fs) q'
Counts-IsFed count p q q' seen fs n fed i t lt e =
    n.cells i ∙ ap (add_frames (frames_of i fs)) (fed i t lt e)
