-- ===== src/Streams/Gap.antt =====
-- A counted cell that was never filled.
use demo_colombia.Base.{refl, ℕ, zero, suc, ◌<◌, ◌≡◌, none, true, arith}
use demo_colombia.Gst.{
  current_timestamp, M, Env, History, Outcome, returns, throws, undefined, pure, ◌>>=◌,
}
use demo_colombia.Pipeline.{Pipeline}
use demo_colombia.Streams.{stream_at, read_stream}
use demo_colombia.Streams.Watchdog.{
  watch_stream, reset_frame_count, check_stream, check_from, check_performance,
}

-- A routine that begins with undefined behaviour is undefined.
>>=-undefined :
    {A B : Type 0} (m : M A) (f : A → M B) (env : Env) (h : History)
    → (m env h).0 ≡ undefined
    → ((m >>= f) env h).0 ≡ undefined
>>=-undefined {A} {B} m f env h e = go (m env h) e
  where
    go :
        (r : Outcome A × History)
        → r.0 ≡ undefined
        → (elim r.0 as (λ x. Outcome B × History) [
          | returns a ↦ f a env r.1
          | throws ↦ (throws, r.1)
          | undefined ↦ (undefined, r.1)
        ]).0
          ≡ undefined
    go (returns a, h') x = cc
    go (throws, h') x = cc
    go (undefined, h') x = refl

read_stream-undefined :
    (p : Pipeline) (env : Env) (h : History)
    → stream_at p 0 ≡ none
    → (read_stream p 0 env h).0 ≡ undefined
unfolding read_stream
read_stream-undefined p env h e = ground (arith, e)

check_stream-undefined :
    (p : Pipeline) (env : Env) (h : History)
    → stream_at p 0 ≡ none
    → (check_stream p 0 env h).0 ≡ undefined
unfolding check_stream
check_stream-undefined p env h e =
    >>=-undefined (read_stream p 0)
      (λ s. watch_stream (env.names h current_timestamp) p 0 s >>= reset_frame_count 0) env _
      (read_stream-undefined p env _ e)

check_from-undefined :
    (n : ℕ) (p : Pipeline) (env : Env) (h : History)
    → 0 < n
    → stream_at p 0 ≡ none
    → (check_from n 0 p env h).0 ≡ undefined
unfolding check_from
check_from-undefined zero p env h lt e = absurd (omega arith)
check_from-undefined (suc n) p env h lt e =
    >>=-undefined (check_stream p 0) (check_from n 1) env h (check_stream-undefined p env h e)

-- Where a source is counted but the first cell was never filled, the next tick of the timer reads a value
-- that was never written, which is undefined behaviour.
pub check_performance-undefined :
    (p : Pipeline) (env : Env) (h : History)
    → 0 < p.num_sources
    → stream_at p 0 ≡ none
    → (check_performance p env h).0 ≡ undefined
unfolding check_performance
check_performance-undefined p env h lt e =
    >>=-undefined (check_from p.num_sources 0 p) (λ q. pure (q, true)) env h
      (check_from-undefined p.num_sources p env h lt e)
