-- ===== src/Streams/Schedule/Timeline.antt =====
-- How long a stream stays silent before it is deleted, and before it is added again.
use demo_colombia.Base.{
  ℕ, suc, ◌+◌, ◌≤◌, ◌<◌, ◌≡◌, ◌⊎◌, refl, sym, ap, subst, inl, inr, ◌∙◌, true, some, none, arith,
  leb, if◌then◌else◌, is_some,
}
use demo_colombia.Pipeline.{StreamSourceInfo, StreamResetStates, idle, waiting, add_stream}
use demo_colombia.Streams.{new_stream}
use demo_colombia.Streams.Schedule.{
  WatchStep, unwatched, alive, silent, deleted, waits, due, readded, lost, Second,
}

-- Seconds of a stream to which no frame comes.
pub data SilentSeconds (t : StreamSourceInfo) : ℕ → StreamSourceInfo → Type 0 where
  here : SilentSeconds t 0 t
  next :
      {n : ℕ} {u v : StreamSourceInfo}
      → SilentSeconds t n u
      → Second u v
      → SilentSeconds t (suc n) v

-- The stage of a stream that has been silent since it was added.
abbrev pub stage_at : ℕ → StreamResetStates
stage_at n = if leb n 20 then idle else if leb n 29 then waiting else add_stream

-- Such a stream, `n` seconds silent.
abbrev pub silent_for : ℕ → StreamSourceInfo → StreamSourceInfo
silent_for n t = record t { frame_count = 0; no_frame_count = n; reset = stage_at n }

advance :
    (t u v : StreamSourceInfo) (n : ℕ)
    → is_some t.source_bin ≡ true
    → u ≡ silent_for n t
    → WatchStep u v
    → n < 30
    → record v { frame_count = 0 } ≡ silent_for (n + 1) t
advance t u v n bin e (unwatched gone) lt = ground arith
advance t u v n bin e (alive x some_came) lt = ground arith
advance t u v n bin e (silent x q few) lt = ground arith
advance t u v n bin e (deleted x q r many) lt = ground arith
advance t u v n bin e (waits x q r many few) lt = ground arith
advance t u v n bin e (due x q r many) lt = ground arith
advance t u v n bin e (readded b x q r many) lt = ground arith
advance t u v n bin e (lost x q r many) lt = ground arith

-- A stream added with a bin, to which no frame comes, counts each of the first thirty seconds; it is
-- deleted with the 21st and marked for re-adding with the 30th.
pub SilentSeconds-silent_for :
    (t u : StreamSourceInfo) (n : ℕ)
    → t ≡ silent_for 0 t
    → is_some t.source_bin ≡ true
    → SilentSeconds t n u
    → n ≤ 30
    → u ≡ silent_for n t
SilentSeconds-silent_for t u n fresh bin here le = fresh
SilentSeconds-silent_for t u n fresh bin (next {n = m} {u = w} r (x, st, e)) le =
    e
    ∙ advance t w x m bin (SilentSeconds-silent_for t w m fresh bin r (omega arith)) st
        (omega arith)
    ∙ ap (λ k. silent_for k t) (omega arith)

-- The stream is fresh again, or left without a bin.
abbrev pub AddedAgain : StreamSourceInfo → StreamSourceInfo → Type 0
AddedAgain t u =
    ((b : ℕ) × (u ≡ new_stream t.uri t.camera_id t.pad_index t.description (some b)))
    ⊎ (u ≡ record t { frame_count = 0; no_frame_count = 31; source_bin = none; reset = add_stream })

last_step :
    (t w v : StreamSourceInfo)
    → is_some t.source_bin ≡ true
    → w ≡ silent_for 30 t
    → WatchStep w v
    → AddedAgain t (record v { frame_count = 0 })
last_step t w v bin e (unwatched gone) = ground arith
last_step t w v bin e (alive x some_came) = ground arith
last_step t w v bin e (silent x q few) = ground arith
last_step t w v bin e (deleted x q r many) = ground arith
last_step t w v bin e (waits x q r many few) = ground arith
last_step t w v bin e (due x q r many) = ground arith
last_step t w v bin e (readded b x q r many) = inl (b, ground arith)
last_step t w v bin e (lost x q r many) = inr (ground arith)

after_31 :
    (t u : StreamSourceInfo) (n : ℕ)
    → t ≡ silent_for 0 t
    → is_some t.source_bin ≡ true
    → SilentSeconds t n u
    → n ≡ 31
    → AddedAgain t u
after_31 t u n fresh bin here k = absurd (omega arith)
after_31 t u n fresh bin (next {n = m} {u = w} r (x, st, e)) k = subst (AddedAgain t) (sym e) (
    last_step t w x bin
      (SilentSeconds-silent_for t w m fresh bin r (omega arith)
        ∙ ap (λ i. silent_for i t) (omega arith))
      st)

-- With the 31st silent second the stream is added again as a fresh one, or it is left without a bin.
pub SilentSeconds-AddedAgain :
    (t u : StreamSourceInfo)
    → t ≡ silent_for 0 t
    → is_some t.source_bin ≡ true
    → SilentSeconds t 31 u
    → AddedAgain t u
SilentSeconds-AddedAgain t u fresh bin r = after_31 t u 31 fresh bin r refl

left_alone :
    (t v : StreamSourceInfo)
    → t.source_bin ≡ none
    → WatchStep t v
    → record v { frame_count = 0 } ≡ record t { frame_count = 0 }
left_alone t v gone (unwatched _) = refl
left_alone t v gone (alive x _) = ground arith
left_alone t v gone (silent x _ _) = ground arith
left_alone t v gone (deleted x _ _ _) = ground arith
left_alone t v gone (waits x _ _ _ _) = ground arith
left_alone t v gone (due x _ _ _) = ground arith
left_alone t v gone (readded _ x _ _ _) = ground arith
left_alone t v gone (lost x _ _ _) = ground arith

-- A stream without a bin is never watched again: a second only resets its frame counter, whatever
-- frames came, and gives it no bin.
pub Second-lost :
    (t u : StreamSourceInfo) → t.source_bin ≡ none → Second t u → u ≡ record t { frame_count = 0 }
Second-lost t u gone (x, st, e) = e ∙ left_alone t x gone st
