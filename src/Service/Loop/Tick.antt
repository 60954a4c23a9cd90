-- ===== src/Service/Loop/Tick.antt =====
-- A tick of the timer between two events: the streams stay sound, and the frame counters are zero.
use demo_colombia.Base.{ℕ, ◌<◌, ◌≡◌, sym, ap, ◌∙◌, some, arith}
use demo_colombia.Gst.{Env, History, Settings}
use demo_colombia.Gst.Ensures.{Returns, Returns-map, Returns-both}
use demo_colombia.Pipeline.{Pipeline, StreamSourceInfo}
use demo_colombia.Streams.{stream_at}
use demo_colombia.Streams.Watchdog.{check_performance}
use demo_colombia.Streams.Invariant.{IsSound, HasSettings}
use demo_colombia.Streams.Invariant.Rounds.{check_performance-IsSound}
use demo_colombia.Streams.Schedule.{Second}
use demo_colombia.Streams.Schedule.Loop.{IsOwn, check_performance-Second}
use demo_colombia.Service.Loop.{IsLow}

Second-frame_count : (t t' : StreamSourceInfo) → Second t t' → t'.frame_count ≡ 0
Second-frame_count t t' (u, st, e) = ap (λ s. s.frame_count) e

some_injective : {a b : StreamSourceInfo} → some a ≡ some b → a ≡ b
some_injective h = cc

-- What a tick leaves of the streams.
pub record Ticked (count size : ℕ) (c : Settings) (p : Pipeline) : Type 0 where
  pub sound : IsSound count size c p
  pub own : IsOwn p
  pub low : IsLow count 0 p

module _ (count size : ℕ) (c : Settings) (ok : HasSettings c) (env : Env) where
  abbrev Moved : Pipeline → Pipeline → Type 0
  Moved p q =
      (j : ℕ) (t : StreamSourceInfo)
      → j < count
      → stream_at p j ≡ some t
      → (t' : StreamSourceInfo) × (stream_at q j ≡ some t') × Second t t'

  Moved-IsLow : (p q : Pipeline) → IsSound count size c p → Moved p q → IsLow count 0 q
  Moved-IsLow p q v m i s lt e =
      let (t, f) = v.filled i lt in
      let (t', g, sec) = m i t lt f in
      omega
        (arith, Second-frame_count t t' sec, ap (λ u. u.frame_count) (some_injective (sym g ∙ e)))

  pub check_performance-Ticked :
      (p : Pipeline) (h : History)
      → IsSound count size c p
      → IsOwn p
      → Returns (λ r. Ticked count size c r.0) (check_performance p env h).0
  check_performance-Ticked p h v own =
      Returns-map _ (λ r. Ticked count size c r.0) (check_performance p env h).0
        (λ r x. record { sound = x.0.0; own = x.1.0; low = Moved-IsLow p r.0 v x.1.1 })
        (Returns-both _ _ (check_performance p env h).0
          (check_performance-IsSound count size c ok env p h v)
          (check_performance-Second count size c ok env p h v own))
