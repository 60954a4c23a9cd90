-- ===== src/Probe/Frames.antt =====
-- What a batch adds to the frame counters, and to the queue.
use demo_colombia.Base.{
  ℕ, suc, ◌+◌, ◌%◌, ◌^◌, ◌<◌, ◌≡◌, ◌≢◌, refl, sym, ap, ◌∙◌, subst, inl, inr, Bool, false, Option,
  none, some, List, [], ◌∷◌, length, arith, ◌==◌, ==_self, ==_iff, if◌then◌else◌, Bool-cases,
  length-set,
}
use native.Mathlib.Decide.{ℕ_discrete}
use demo_colombia.Base.Int.{ℤ, to_u32}
use demo_colombia.Pipeline.{Pipeline, StreamSourceInfo}
use demo_colombia.Streams.{stream_at, write_stream}
use demo_colombia.Streams.Invariant.Writes.{lt-length_of_stream_at, stream_at-write_self}
use demo_colombia.Streams.Schedule.Cells.{stream_at-write_ne}
use demo_colombia.Probe.{FrameMeta, ReidTensor}
use demo_colombia.Probe.Invariant.{AreSound}

-- The frames of a pad in a batch.
abbrev pub frames_of : ℕ → List (Option FrameMeta) → ℕ
frames_of i [] = 0
frames_of i (none ∷ fs) = frames_of i fs
frames_of i (some f ∷ fs) = if f.pad_index == i then suc (frames_of i fs) else frames_of i fs

-- Whether the objects of a frame are sent.
abbrev pub sends : ℤ → FrameMeta → Bool
sends interval f = to_u32 f.frame_num % to_u32 interval == 0

abbrev pub AllSound : Option ReidTensor → List (Option FrameMeta) → Type 0
AllSound tensor [] = Unit
AllSound tensor (none ∷ fs) = AllSound tensor fs
AllSound tensor (some f ∷ fs) = AreSound tensor f.objects × AllSound tensor fs

-- Each frame is of a stream that was added, and the frame counters have room for the batch.
abbrev pub HasRoom : Pipeline → List (Option FrameMeta) → Type 0
HasRoom p fs =
    (i : ℕ)
    → 0 < frames_of i fs
    → (s : StreamSourceInfo) × (stream_at p i ≡ some s) × (s.frame_count + frames_of i fs < 2 ^ 31)

abbrev pub add_frames : ℕ → Option StreamSourceInfo → Option StreamSourceInfo
add_frames k none = none
add_frames k (some s) = some (record s { frame_count = s.frame_count + k })

-- Each stream has counted its frames, and nothing else of the pipeline has changed.
pub record Counts (p : Pipeline) (fs : List (Option FrameMeta)) (p' : Pipeline) : Type 0 where
  pub cells : (i : ℕ) → stream_at p' i ≡ add_frames (frames_of i fs) (stream_at p i)
  pub sized : length p'.streams ≡ length p.streams
  pub rest : record p' { streams = p.streams } ≡ p

pub add_frames_zero : (o : Option StreamSourceInfo) → o ≡ add_frames 0 o
add_frames_zero none = refl
add_frames_zero (some s) = ap (λ k. some (record s { frame_count = k })) (omega arith)

add_frames-suc :
    (k : ℕ) (s : StreamSourceInfo)
    → add_frames k (some (record s { frame_count = s.frame_count + 1 }))
      ≡ add_frames (suc k) (some s)
add_frames-suc k s = ap (λ n. some (record s { frame_count = n })) (omega arith)

-- The pipeline after a frame of the stream `s` in the cell `i`.
abbrev pub count_up : Pipeline → ℕ → StreamSourceInfo → Pipeline
count_up p i s = write_stream p i (record s { frame_count = s.frame_count + 1 })

some_injective : {a b : StreamSourceInfo} → some a ≡ some b → a ≡ b
some_injective h = cc

ne_of_==_false : (a b : ℕ) → (a == b) ≡ false → a ≢ b
ne_of_==_false a b h e = ground arith

pub frames_of_self :
    (f : FrameMeta) (fs : List (Option FrameMeta))
    → frames_of f.pad_index (some f ∷ fs) ≡ suc (frames_of f.pad_index fs)
frames_of_self f fs = rw (==_self f.pad_index) refl

pub HasRoom-tail :
    (p : Pipeline) (f : FrameMeta) (fs : List (Option FrameMeta)) (s : StreamSourceInfo)
    → stream_at p f.pad_index ≡ some s
    → HasRoom p (some f ∷ fs)
    → HasRoom (count_up p f.pad_index s) fs
HasRoom-tail p f fs s e room i lt = elim (ℕ_discrete f.pad_index i) [
  | yes same ↦
      let (t, e', le) = room f.pad_index (omega (arith, frames_of_self f fs)) in
      (
        record s { frame_count = s.frame_count + 1 },
        subst
            (λ k.
              stream_at (count_up p f.pad_index s) k
              ≡ some (record s { frame_count = s.frame_count + 1 }))
            same (stream_at-write_self p f.pad_index _ (lt-length_of_stream_at p f.pad_index e)),
        subst (λ k. s.frame_count + 1 + frames_of k fs < 2 ^ 31) same
            (omega (
              arith,
              le,
              frames_of_self f fs,
              ap (λ u. u.frame_count) (some_injective (sym e' ∙ e)),
            )),
      )
  | no other ↦
      let (t, e', le) = room i (ground arith) in
      (t, stream_at-write_ne p f.pad_index i _ other ∙ e', ground arith)
]

pub Counts-cons :
    (p : Pipeline) (f : FrameMeta) (fs : List (Option FrameMeta)) (s : StreamSourceInfo)
    (p' : Pipeline)
    → stream_at p f.pad_index ≡ some s
    → Counts (count_up p f.pad_index s) fs p'
    → Counts p (some f ∷ fs) p'
Counts-cons p f fs s p' e c = record {
  cells = λ i. elim (Bool-cases (f.pad_index == i)) [
    | inl same ↦
        let at = (==_iff f.pad_index i).0 same in
        rw same (
          c.cells i
          ∙ ap (add_frames (frames_of i fs)) (
              subst
                (λ k.
                  stream_at (count_up p f.pad_index s) k
                  ≡ some (record s { frame_count = s.frame_count + 1 }))
                at (stream_at-write_self p f.pad_index _ (lt-length_of_stream_at p f.pad_index e)))
          ∙ add_frames-suc (frames_of i fs) s
          ∙ ap (add_frames (suc (frames_of i fs))) (subst (λ k. some s ≡ stream_at p k) at (sym e)))
    | inr other ↦ rw other (
        c.cells i
        ∙ ap (add_frames (frames_of i fs))
            (stream_at-write_ne p f.pad_index i _ (ne_of_==_false f.pad_index i other)))
  ];
  sized = c.sized ∙ length-set p.streams f.pad_index _;
  rest = ap {A = Pipeline} (λ q. record q { streams = p.streams }) c.rest;
}
