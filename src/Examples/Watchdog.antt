-- ===== src/Examples/Watchdog.antt =====
-- The theorems on the watchdog at one silent camera.
use demo_colombia.Streams.Schedule.Timeline.{silent_for, AddedAgain}
use demo_colombia.Base.{
  ◌≤◌, sym, ◌∙◌, subst, ℕ, zero, suc, ◌≡◌, ◌<◌, refl, ap, true, some, [], arith,
}
use demo_colombia.Base.Int.{pos}
use demo_colombia.Gst.Ensures.{Returns}
use demo_colombia.Pipeline.{Pipeline, StreamSourceInfo, idle}
use demo_colombia.Streams.{stream_at}
use demo_colombia.Streams.Watchdog.{check_performance}
use demo_colombia.Streams.Invariant.{IsSound, IsWatched}
use demo_colombia.Streams.Invariant.Rounds.{check_performance-IsSound}
use demo_colombia.Streams.Schedule.{Second}
use demo_colombia.Streams.Schedule.Silence.{ticks, ticks-silent_for}
use demo_colombia.Streams.Schedule.Loop.{IsOwn, check_performance-Second}
use demo_colombia.Examples.{willing, ones, ones-HasSettings, camera, one_camera}

abbrev twenty : Pipeline
twenty = one_camera (camera 20 idle)

only :
    (n j : ℕ) (s : StreamSourceInfo)
    → stream_at (one_camera (camera n idle)) j ≡ some s
    → (j ≡ 0) × (s ≡ camera n idle)
only n zero s e = (refl, cc)
only n (suc zero) s e = cc
only n (suc (suc j)) s e = cc

counting-IsSound : (n : ℕ) → n ≤ 20 → IsSound 1 2 ones (one_camera (camera n idle))
counting-IsSound n le = record {
  counted = refl;
  sized = refl;
  configured = refl;
  filled = filled;
  watched = λ i s e.
      subst (IsWatched 2) (sym (only n i s e).1)
        (record { stage = omega arith; in_array = (0, refl, omega arith) });
}
  where
    filled :
        (i : ℕ)
        → i < 1
        → (s : StreamSourceInfo) × (stream_at (one_camera (camera n idle)) i ≡ some s)
    filled zero lt = (camera n idle, refl)
    filled (suc i) lt = absurd (omega arith)

counting-IsOwn : (n : ℕ) → IsOwn (one_camera (camera n idle))
counting-IsOwn n j s e = ap (λ t. t.pad_index) (only n j s e).1 ∙ ap pos (sym (only n j s e).0)

twenty-IsSound : IsSound 1 2 ones twenty
twenty-IsSound = counting-IsSound 20 (omega arith)

twenty-IsOwn : IsOwn twenty
twenty-IsOwn = counting-IsOwn 20

check_performance-IsSound_example :
    Returns (λ r. IsSound 1 2 ones r.0 × (r.1 ≡ true)) (check_performance twenty willing []).0
check_performance-IsSound_example =
    check_performance-IsSound 1 2 ones ones-HasSettings willing twenty [] twenty-IsSound

check_performance-Second_example :
    Returns
      (λ r.
        IsOwn r.0
        × ((j : ℕ) (t : StreamSourceInfo)
            → j < 1
            → stream_at twenty j ≡ some t
            → (t' : StreamSourceInfo) × (stream_at r.0 j ≡ some t') × Second t t'))
      (check_performance twenty willing []).0
check_performance-Second_example =
    check_performance-Second 1 2 ones ones-HasSettings willing twenty [] twenty-IsSound twenty-IsOwn

ticks-silent_for_example :
    Returns
      (λ q.
        (u : StreamSourceInfo) × (stream_at q 0 ≡ some u)
        × (30 ≤ 30 → u ≡ silent_for 30 (camera 0 idle))
        × (◌≡◌ {A = ℕ} 30 31 → AddedAgain (camera 0 idle) u))
      (ticks 30 (one_camera (camera 0 idle)) willing []).0
ticks-silent_for_example =
    ticks-silent_for 1 2 ones ones-HasSettings willing 0 (omega arith) (camera 0 idle) 30
      (one_camera (camera 0 idle)) [] (counting-IsSound 0 (omega arith)) (counting-IsOwn 0) refl
      refl refl
