-- ===== src/Service/Loop/Buffers.antt =====
-- A batch between two events: the streams count its frames, and stay sound.
use demo_colombia.Base.{
  ℕ, suc, ◌+◌, ◌^◌, ◌≤◌, ◌<◌, ◌≡◌, sym, ap, subst, ◌∙◌, inl, inr, Bool-cases, ==_iff, ◌==◌,
  if◌then◌else◌, Option, none, some, List, [], ◌∷◌, length, arith,
}
use demo_colombia.Gst.{Settings}
use demo_colombia.Pipeline.{Pipeline, StreamSourceInfo}
use demo_colombia.Streams.{stream_at}
use demo_colombia.Streams.Invariant.{IsSound}
use demo_colombia.Streams.Schedule.Loop.{IsOwn}
use demo_colombia.Probe.{FrameMeta}
use demo_colombia.Probe.Frames.{frames_of, HasRoom, Counts, add_frames}
use demo_colombia.Service.Loop.{IsLow, AreCounted}

frames_of_le : (i : ℕ) (fs : List (Option FrameMeta)) → frames_of i fs ≤ length fs
frames_of_le i [] = omega arith
frames_of_le i (none ∷ fs) = omega (arith, frames_of_le i fs)
frames_of_le i (some f ∷ fs) = ground (arith, frames_of_le i fs)

-- A pad with frames in the batch is of a counted stream.
AreCounted-lt :
    (count i : ℕ) (fs : List (Option FrameMeta))
    → AreCounted count fs
    → 0 < frames_of i fs
    → i < count
AreCounted-lt count i [] a lt = omega arith
AreCounted-lt count i (none ∷ fs) a lt = AreCounted-lt count i fs a lt
AreCounted-lt count i (some f ∷ fs) (l, a) lt = elim (Bool-cases (f.pad_index == i)) [
  | inl same ↦ subst (λ j. j < count) ((==_iff f.pad_index i).0 same) l
  | inr other ↦
      AreCounted-lt count i fs a
        (subst (λ b. 0 < (if b then suc (frames_of i fs) else frames_of i fs)) other lt)
]

pub IsLow-HasRoom :
    (count size k : ℕ) (c : Settings) (p : Pipeline) (fs : List (Option FrameMeta))
    → IsSound count size c p
    → IsLow count k p
    → AreCounted count fs
    → k + length fs < 2 ^ 31
    → HasRoom p fs
IsLow-HasRoom count size k c p fs v low a room i lt =
    let here = AreCounted-lt count i fs a lt in
    let (s, e) = v.filled i here in (s, e, omega (arith, low i s here e, frames_of_le i fs))

-- What a stream that counts frames was before.
add_frames-cases :
    (n : ℕ) (o : Option StreamSourceInfo) (s : StreamSourceInfo)
    → add_frames n o ≡ some s
    → (t : StreamSourceInfo) × (o ≡ some t) × (s ≡ record t { frame_count = t.frame_count + n })
add_frames-cases n none s e = cc
add_frames-cases n (some t) s e = (t, cc, sym (some_injective e))
  where
    some_injective : {a b : StreamSourceInfo} → some a ≡ some b → a ≡ b
    some_injective h = cc

pub Counts-IsOwn :
    (p p' : Pipeline) (fs : List (Option FrameMeta)) → Counts p fs p' → IsOwn p → IsOwn p'
Counts-IsOwn p p' fs n own j t e =
    let (u, f, g) = add_frames-cases (frames_of j fs) (stream_at p j) t (sym (n.cells j) ∙ e) in
    ap (λ s. s.pad_index) g ∙ own j u f

pub Counts-IsLow :
    (count k : ℕ) (p p' : Pipeline) (fs : List (Option FrameMeta))
    → Counts p fs p'
    → IsLow count k p
    → IsLow count (k + length fs) p'
Counts-IsLow count k p p' fs n low j t lt e =
    let (u, f, g) = add_frames-cases (frames_of j fs) (stream_at p j) t (sym (n.cells j) ∙ e) in
    omega (arith, ap (λ s. s.frame_count) g, low j u lt f, frames_of_le j fs)
