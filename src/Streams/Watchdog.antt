-- ===== src/Streams/Watchdog.antt =====
-- perception/src/perception.cpp: `check_performance`, which a timer calls once a second. It counts the
-- seconds in which a stream brought no frame, and deletes and re-adds the sources that stay silent.
use demo_colombia.Base.{
  ℕ, zero, suc, Bool, true, none, ◌∷◌, [], ◌++◌, leb, ltb, ◌==◌, if◌then◌else◌, is_some,
}
use demo_colombia.Text.{Bytes, codes, decimal}
use demo_colombia.Gst.{M, pure, ◌>>=◌, ◌>>◌, ask_name, tell, current_timestamp, append_line}
use demo_colombia.Pipeline.{
  Pipeline, StreamSourceInfo, StreamResetStates, idle, change_state_to_null, check_for_state_null,
  initialiting, ready, delete_stream, waiting, add_stream,
}
use demo_colombia.Streams.{read_stream, write_stream, increment, add_source, delete_source}

-- The bin is deleted, and the stream waits to be added again.
unfoldable pub stop_stream : Pipeline → ℕ → StreamSourceInfo → M Pipeline
stop_stream p i s =
    if is_some s.source_bin
    then (do delete_source p s; pure (write_stream p i (record s { reset = waiting })))
    else pure p

-- After thirty seconds of silence the stream is due.
unfoldable pub await_stream : Pipeline → ℕ → StreamSourceInfo → M Pipeline
await_stream p i s =
    if is_some s.source_bin
    then pure
        (if leb 30 s.no_frame_count then write_stream p i (record s { reset = add_stream }) else p)
    else pure p

unfoldable pub readd_stream : Pipeline → ℕ → StreamSourceInfo → M Pipeline
readd_stream p i s =
    add_source (write_stream p i (record s { source_bin = none })) s.uri s.camera_id s.pad_index
      s.description true true

-- The `switch` on the reset state; `s` is the stream at `i`.
unfoldable pub recover : StreamResetStates → Pipeline → ℕ → StreamSourceInfo → M Pipeline
recover idle p i s = stop_stream p i s
recover delete_stream p i s = stop_stream p i s
recover waiting p i s = await_stream p i s
recover add_stream p i s = readd_stream p i s
recover change_state_to_null p i s = pure p
recover check_for_state_null p i s = pure p
recover initialiting p i s = pure p
recover ready p i s = pure p

abbrev pub log_line : Bytes → ℕ → Bytes → Bytes
log_line time i description = time ++ codes "," ++ decimal i ++ codes "," ++ description ++ 10 ∷ []

-- A second without a frame; after twenty of them the stream is logged and recovered.
unfoldable pub count_silence : Bytes → Pipeline → ℕ → StreamSourceInfo → M Pipeline
unfolding recover
count_silence time p i s = do
  n ← increment s.no_frame_count
  let s' = record s { no_frame_count = n }
  let p' = write_stream p i s'
  if ltb 20 n
      then (do
        tell (append_line (codes "/opt/storage/ver_logs.txt") (log_line time i s.description))
        recover s.reset p' i s')
      else pure p'

-- What the body of the loop does with the stream at `i`.
unfoldable pub watch_stream : Bytes → Pipeline → ℕ → StreamSourceInfo → M Pipeline
unfolding count_silence
watch_stream time p i s =
    if is_some s.source_bin
    then if s.frame_count == 0
      then count_silence time p i s
      else pure (write_stream p i (record s { no_frame_count = 0 }))
    else pure p

-- `streams_[i].frameCount = 0`
unfoldable pub reset_frame_count : ℕ → Pipeline → M Pipeline
reset_frame_count i p = do
  s ← read_stream p i
  pure (write_stream p i (record s { frame_count = 0 }))

unfoldable pub check_stream : Pipeline → ℕ → M Pipeline
unfolding watch_stream reset_frame_count
check_stream p i = do
  time ← ask_name current_timestamp
  s ← read_stream p i
  p' ← watch_stream time p i s
  reset_frame_count i p'

-- The loop from `i` on, with the rounds that are left; no round changes the number of sources.
unfoldable pub check_from : ℕ → ℕ → Pipeline → M Pipeline
check_from zero i p = pure p
check_from (suc rounds) i p = do p' ← check_stream p i; check_from rounds (suc i) p'

-- The timer's callback always asks to be called again.
unfoldable pub check_performance : Pipeline → M (Pipeline × Bool)
unfolding check_from
check_performance p = do p' ← check_from p.num_sources 0 p; pure (p', true)
