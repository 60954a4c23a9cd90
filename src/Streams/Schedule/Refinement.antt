-- ===== src/Streams/Schedule/Refinement.antt =====
-- One call of `check_performance` moves each stream by one abstract step.
use demo_colombia.Base.{
  ℕ, ◌+◌, ◌≤◌, ◌<◌, ◌≡◌, refl, sym, ap, ◌∙◌, subst, ◌⊎◌, inl, inr, true, none, some, length,
  length-set, arith, ltb, leb, ◌==◌, is_some, Bool-cases, Option-cases,
}
use demo_colombia.Base.Int.{pos}
use demo_colombia.Text.{Bytes}
use demo_colombia.Gst.{Env, History, pure}
use demo_colombia.Gst.Ensures.{Returns, >>=-Returns, Returns-map}
use demo_colombia.Pipeline.{
  Pipeline, StreamSourceInfo, StreamResetStates, idle, waiting, add_stream,
}
use demo_colombia.Streams.{stream_at, write_stream, new_stream, add_source, delete_source}
use demo_colombia.Streams.Sources.{AddedHere, InArray, add_source-Returns, delete_source-Returns}
use demo_colombia.Streams.Watchdog.{
  stop_stream, await_stream, readd_stream, recover, count_silence, watch_stream,
}
use demo_colombia.Streams.Invariant.{Stage, IsWatched, HasSettings}
use demo_colombia.Streams.Invariant.Writes.{write-write_stream, lt-length_of_stream_at}
use demo_colombia.Streams.Invariant.Rounds.{increment_small}
use demo_colombia.Streams.Invariant.Preservation.{Stage-bound}
use demo_colombia.Streams.Schedule.{
  WatchStep, unwatched, alive, silent, deleted, waits, due, readded, lost,
}
use demo_colombia.Streams.Schedule.Cells.{Moves, write-Moves, twice-Moves}

pos_injective : {m n : ℕ} → pos m ≡ pos n → m ≡ n
pos_injective e = cc

-- A stream `t` at its own pad index, silent this second and counted as `s`.
module _ (env : Env) (p : Pipeline) (i : ℕ) (t : StreamSourceInfo) (room : i < length p.streams)
    (own : t.pad_index ≡ pos i) (quiet : t.frame_count ≡ 0) where
  abbrev counted : StreamSourceInfo
  counted = record t { no_frame_count = t.no_frame_count + 1 }

  abbrev Stepped : Pipeline → Type 0
  Stepped = Moves i p (WatchStep t)

  stop_stream-Moves :
      (h : History)
      → t.reset ≡ idle
      → 20 ≤ t.no_frame_count
      → is_some t.source_bin ≡ true
      → Returns Stepped (stop_stream (write_stream p i counted) i counted env h).0
  unfolding stop_stream
  stop_stream-Moves h r n bin = rw bin (
      >>=-Returns (λ _. Unit {0}) Stepped
        (λ _. pure (write_stream (write_stream p i counted) i (record counted { reset = waiting })))
        env (delete_source (write_stream p i counted) counted) h
        (delete_source-Returns (write_stream p i counted) counted env h)
        (λ _ h' _.
          twice-Moves (WatchStep t) p i counted (record counted { reset = waiting }) room
            (deleted bin quiet r n)))

  await_stream-Moves :
      (h : History)
      → t.reset ≡ waiting
      → 20 ≤ t.no_frame_count
      → is_some t.source_bin ≡ true
      → Returns Stepped (await_stream (write_stream p i counted) i counted env h).0
  unfolding await_stream
  await_stream-Moves h r n bin = elim (Bool-cases (leb 30 (t.no_frame_count + 1))) [
    | inl is_due ↦
        rw (bin, is_due)
          (twice-Moves (WatchStep t) p i counted (record counted { reset = add_stream }) room
            (due bin quiet r (ground arith)))
    | inr early ↦
        rw (bin, early)
          (write-Moves (WatchStep t) p i counted room (waits bin quiet r n (ground arith)))
  ]

  abbrev without_bin : StreamSourceInfo
  without_bin = record counted { source_bin = none }

  AddedHere-Moves :
      (p' : Pipeline)
      → t.reset ≡ add_stream
      → 20 ≤ t.no_frame_count
      → is_some t.source_bin ≡ true
      → AddedHere
          (write_stream (write_stream p i counted) i without_bin)
          t.uri
          t.camera_id
          t.pad_index
          t.description
          true
          p'
      → Stepped p'
  AddedHere-Moves p' r n bin (inl e) =
      subst Stepped (sym e)
        (twice-Moves (WatchStep t) p i counted without_bin room (lost bin quiet r n))
  AddedHere-Moves p' r n bin (inr (k, b, e, lt, a)) = subst Stepped (sym (once a)) (
      subst (λ j. Stepped (write_stream q j fresh)) (pos_injective (sym own ∙ e))
        (subst (λ x. Stepped (write_stream x i fresh))
          (sym (write-write_stream p i counted without_bin))
          (twice-Moves (WatchStep t) p i without_bin fresh room (readded b bin quiet r n))))
    where
      q : Pipeline
      q = write_stream (write_stream p i counted) i without_bin

      fresh : StreamSourceInfo
      fresh = new_stream t.uri t.camera_id t.pad_index t.description (some b)

      once : {u : Pipeline} → (p' ≡ u) ⊎ (p' ≡ u) → p' ≡ u
      once (inl x) = x
      once (inr x) = x

  readd_stream-Moves :
      (h : History)
      → HasSettings p.configs
      → InArray (length p.streams) t.pad_index
      → t.reset ≡ add_stream
      → 20 ≤ t.no_frame_count
      → is_some t.source_bin ≡ true
      → Returns Stepped (readd_stream (write_stream p i counted) i counted env h).0
  unfolding readd_stream
  readd_stream-Moves h ok a r n bin =
      let q : Pipeline = write_stream (write_stream p i counted) i without_bin in
      Returns-map (AddedHere q t.uri t.camera_id t.pad_index t.description true) Stepped
        (add_source q t.uri t.camera_id t.pad_index t.description true true env h).0
        (λ p' d. AddedHere-Moves p' r n bin d)
        (add_source-Returns q t.uri t.camera_id t.pad_index t.description true true env h
          (subst (λ m. InArray m t.pad_index)
            (sym (
              length-set (write_stream p i counted).streams i (some without_bin)
              ∙ length-set p.streams i (some counted)))
            a)
          (ok t.pad_index))

  recover-Moves :
      (r : StreamResetStates) (h : History) (b : ℕ)
      → HasSettings p.configs
      → InArray (length p.streams) t.pad_index
      → t.reset ≡ r
      → t.source_bin ≡ some b
      → Stage r (some b) t.no_frame_count
      → 20 ≤ t.no_frame_count
      → Returns Stepped (recover r (write_stream p i counted) i counted env h).0
  unfolding recover
  recover-Moves idle h b ok a r bin st n = stop_stream-Moves h r n (ap is_some bin)
  recover-Moves waiting h b ok a r bin st n = await_stream-Moves h r n (ap is_some bin)
  recover-Moves add_stream h b ok a r bin st n = readd_stream-Moves h ok a r n (ap is_some bin)
  recover-Moves _ h b ok a r bin st n = absurd st

  count_silence-Moves :
      (time : Bytes) (h : History) (b : ℕ)
      → HasSettings p.configs
      → IsWatched (length p.streams) t
      → t.source_bin ≡ some b
      → Returns Stepped (count_silence time p i t env h).0
  unfolding count_silence
  count_silence-Moves time h b ok w bin =
      let st : Stage t.reset (some b) t.no_frame_count =
        subst (λ q. Stage t.reset q t.no_frame_count) bin w.stage in
      let few = Stage-bound t.reset b t.no_frame_count st in
      rw (increment_small t.no_frame_count (omega (arith, few)))
        (elim (Bool-cases (ltb 20 (t.no_frame_count + 1))) [
          | inl long ↦ rw long (recover-Moves t.reset _ b ok w.in_array refl bin st (ground arith))
          | inr short ↦ rw short (
              write-Moves (WatchStep t) p i counted room
                (silent (ap is_some bin) quiet (ground arith)))
        ])

module _ (env : Env) (p : Pipeline) (i : ℕ) (t : StreamSourceInfo) where
  -- The body of the loop, before it resets the frame counter.
  pub watch_stream-Moves :
      (time : Bytes) (h : History)
      → stream_at p i ≡ some t
      → t.pad_index ≡ pos i
      → HasSettings p.configs
      → IsWatched (length p.streams) t
      → Returns (Moves i p (WatchStep t)) (watch_stream time p i t env h).0
  unfolding watch_stream
  watch_stream-Moves time h e own ok w = elim (Option-cases t.source_bin) [
    | inl gone ↦ rw (ap is_some gone) (t, e, unwatched gone, λ j ne. refl)
    | inr (b, bin) ↦ rw (ap is_some bin) (elim (Bool-cases (t.frame_count == 0)) [
      | inl none_came ↦ rw none_came (
          count_silence-Moves env p i t (lt-length_of_stream_at p i e) own (ground arith) time h b
            ok w bin)
      | inr came ↦ rw came (
          write-Moves (WatchStep t) p i (record t { no_frame_count = 0 })
            (lt-length_of_stream_at p i e) (alive (ap is_some bin) (ground arith)))
    ])
  ]
