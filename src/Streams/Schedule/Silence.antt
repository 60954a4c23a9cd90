-- ===== src/Streams/Schedule/Silence.antt =====
-- The ticks of a stream to which no frame comes.
use demo_colombia.Base.{ℕ, zero, suc, ◌≤◌, ◌<◌, ◌≡◌, subst, true, some, is_some}
use demo_colombia.Gst.{M, Env, History, Settings, pure, ◌>>=◌}
use demo_colombia.Gst.Ensures.{Returns, >>=-Returns, Returns-map, Returns-both}
use demo_colombia.Pipeline.{Pipeline, StreamSourceInfo}
use demo_colombia.Streams.{stream_at}
use demo_colombia.Streams.Watchdog.{check_performance}
use demo_colombia.Streams.Invariant.{IsSound, HasSettings}
use demo_colombia.Streams.Invariant.Rounds.{check_performance-IsSound}
use demo_colombia.Streams.Schedule.Loop.{IsOwn, check_performance-Second}
use demo_colombia.Streams.Schedule.Timeline.{
  SilentSeconds, here, next, silent_for, AddedAgain, SilentSeconds-silent_for,
  SilentSeconds-AddedAgain,
}

-- The timer calls `check_performance` so many times, and no frame comes in between.
abbrev pub ticks : ℕ → Pipeline → M Pipeline
ticks zero p = pure p
ticks (suc n) p = ticks n p >>= λ q. check_performance q >>= λ r. pure r.0

module _ (count size : ℕ) (c : Settings) (ok : HasSettings c) (env : Env) (j : ℕ)
    (counted : j < count) (t : StreamSourceInfo) where
  -- The stream after some silent seconds.
  record Silent (n : ℕ) (q : Pipeline) : Type 0 where
    sound : IsSound count size c q
    own : IsOwn q
    stream : StreamSourceInfo
    cell : stream_at q j ≡ some stream
    silence : SilentSeconds t n stream

  tick-Silent :
      (n : ℕ) (q : Pipeline) (h : History)
      → Silent n q
      → Returns (Silent (suc n)) ((check_performance q >>= λ r. pure r.0) env h).0
  tick-Silent n q h s =
      >>=-Returns _ (Silent (suc n)) (λ r. pure r.0) env (check_performance q) h
        (Returns-both _ _ (check_performance q env h).0
          (check_performance-IsSound count size c ok env q h s.sound)
          (check_performance-Second count size c ok env q h s.sound s.own))
        (λ r h' v.
          let (u, e, second) = v.1.1 j s.stream counted s.cell in
          record {
            sound = v.0.0;
            own = v.1.0;
            stream = u;
            cell = e;
            silence = next s.silence second;
          })

  ticks-Silent :
      (n : ℕ) (p : Pipeline) (h : History)
      → IsSound count size c p
      → IsOwn p
      → stream_at p j ≡ some t
      → Returns (Silent n) (ticks n p env h).0
  ticks-Silent zero p h sound own e = record {
    sound = sound;
    own = own;
    stream = t;
    cell = e;
    silence = here;
  }
  ticks-Silent (suc n) p h sound own e =
      >>=-Returns (Silent n) (Silent (suc n)) (λ q. check_performance q >>= λ r. pure r.0) env
        (ticks n p) h (ticks-Silent n p h sound own e) (tick-Silent n)

  -- Whatever GStreamer answers: where the invariant holds and each stream stands in its own cell, the
  -- timer's calls of `check_performance` return; and of a counted stream that has a bin, is in its first
  -- stage and has counted no silent second, to which no frame comes, each of the first thirty calls
  -- counts a second: its stage is idle up to the 20th, waiting from the 21st to the 29th, and with the
  -- 30th it is due to be added. The 31st call makes it a fresh stream with a bin, or leaves it without.
  pub ticks-silent_for :
      (n : ℕ) (p : Pipeline) (h : History)
      → IsSound count size c p
      → IsOwn p
      → stream_at p j ≡ some t
      → t ≡ silent_for 0 t
      → is_some t.source_bin ≡ true
      → Returns
          (λ q.
            (u : StreamSourceInfo) × (stream_at q j ≡ some u)
            × (n ≤ 30 → u ≡ silent_for n t)
            × (n ≡ 31 → AddedAgain t u))
          (ticks n p env h).0
  ticks-silent_for n p h sound own e fresh bin =
      Returns-map (Silent n) _ (ticks n p env h).0
        (λ q s. (
          s.stream,
          s.cell,
          SilentSeconds-silent_for t s.stream n fresh bin s.silence,
          λ last.
              SilentSeconds-AddedAgain t s.stream fresh bin
                (subst (λ k. SilentSeconds t k s.stream) last s.silence),
        ))
        (ticks-Silent n p h sound own e)
