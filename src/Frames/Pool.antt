-- ===== src/Frames/Pool.antt =====
-- perception/src/perception.cpp: the tasks `send2redisTask` in the thread pool, which may run them in
-- any order, and what Redis then holds.
pub mod Order
use native.Mathlib.Decide.{ℕ_discrete}
use demo_colombia.Base.{
  ◌<◌, ◌^◌, suc, ◌≢◌, Option-cases, ℕ, ◌+◌, ◌≤◌, ◌≡◌, refl, sym, ap, subst, ◌∙◌, ◌⊎◌, inl, inr,
  true, false, Option, none, some, List, [], ◌∷◌, length, arith,
}
use demo_colombia.Base.Int.{pos, ℤ}
use demo_colombia.Text.{Bytes, decimal_int}
use demo_colombia.Base.{◌↔◌}
use demo_colombia.Gst.{
  Outcome, throws, undefined, returns, M, Ptr, Env, History, Call, Reply, pure, ◌>>◌, flag, setex,
  cvt_color, imencode,
}
use demo_colombia.ObjInfo.{FrameInfo}
use demo_colombia.Frames.{redis_key, send2redis_task}
use demo_colombia.Frames.Names.{redis_key_injective}

pub Bytes-discrete : Discrete Bytes
Bytes-discrete = hlevel ℕ_discrete

-- What Redis holds under a key.
abbrev pub Entry : Type 0
Entry = Option (ℤ × Ptr)

abbrev pub left_by : {P : Type 0} → ℤ → Ptr → Dec P → Entry → Entry
left_by ttl image (yes same) old = some (ttl, image)
left_by ttl image (no other) old = old

abbrev pub written : Bytes → Call → Reply → Entry → Entry
written key (setex k ttl image) (flag true) old = left_by ttl image (Bytes-discrete k key) old
written key _ _ old = old

-- The last value that was written under the key and accepted.
abbrev pub stored : Bytes → History → Entry
stored key [] = none
stored key ((c, r) ∷ h) = written key c r (stored key h)

-- The pool runs the tasks, in the order in which they reach Redis.
abbrev pub run_pool : ℤ → List (FrameInfo Ptr) → M (Unit {0})
run_pool ttl [] = pure tt
run_pool ttl (x ∷ xs) = send2redis_task ttl x >> run_pool ttl xs

-- OpenCV converts and encodes an image that is not empty, and throws at an empty one; Redis takes what
-- it is given with a time to live from 1 to 2^32.
pub record Works (env : Env) : Type 0 where
  pub converts : (h : History) (i : ℕ) → env.accepts h (cvt_color (some i)) ≡ true
  pub refuses : (h : History) → env.accepts h (cvt_color none) ≡ false
  pub encodes : (h : History) (i : ℕ) → env.accepts h (imencode (some i)) ≡ true
  pub takes :
      (h : History) (k : Bytes) (seconds i : ℕ)
      → seconds < 2 ^ 32
      → env.accepts h (setex k (pos (suc seconds)) (some i)) ≡ true

abbrev pub key_of : FrameInfo Ptr → Bytes
key_of x = redis_key x.camera_id x.frame_num

-- What a task leaves under a key.
abbrev pub after_task : Bytes → ℤ → FrameInfo Ptr → Entry → Entry
after_task key ttl x old = elim x.frame [
  | none ↦ old
  | some i ↦ left_by ttl (some i) (Bytes-discrete (key_of x) key) old
]

abbrev pub after_tasks : Bytes → ℤ → List (FrameInfo Ptr) → Entry → Entry
after_tasks key ttl [] old = old
after_tasks key ttl (x ∷ xs) old = after_tasks key ttl xs (after_task key ttl x old)

module _ (env : Env) (works : Works env) (seconds : ℕ) (few : seconds < 2 ^ 32) where
  send2redis_task_empty :
      (x : FrameInfo Ptr) (h : History)
      → x.frame ≡ none
      → send2redis_task (pos (suc seconds)) x env h ≡ (returns tt, (cvt_color none, flag false) ∷ h)
  unfolding send2redis_task
  send2redis_task_empty x h e = ground (arith, e, works.refuses h)

  send2redis_task_full :
      (x : FrameInfo Ptr) (i : ℕ) (h : History)
      → x.frame ≡ some i
      → send2redis_task (pos (suc seconds)) x env h ≡ (
        returns tt,
        (setex (key_of x) (pos (suc seconds)) (some i), flag true)
            ∷ (imencode (some i), flag true)
            ∷ (cvt_color (some i), flag true)
            ∷ h,
      )
  unfolding send2redis_task
  send2redis_task_full x i h e =
      let h₁ : History = (cvt_color (some i), flag true) ∷ h in
      let h₂ : History = (imencode (some i), flag true) ∷ h₁ in
      ground
        (arith, e, works.converts h i, works.encodes h₁ i, works.takes h₂ (key_of x) seconds i few)

  -- What a task does to the history.
  send2redis_task_leaves :
      (key : Bytes) (x : FrameInfo Ptr) (h : History)
      → (h' : History) × (send2redis_task (pos (suc seconds)) x env h ≡ (returns tt, h'))
        × (stored key h' ≡ after_task key (pos (suc seconds)) x (stored key h))
  send2redis_task_leaves key x h = elim (Option-cases x.frame) [
    | inl e ↦ (_, send2redis_task_empty x h e, rw e refl)
    | inr (i, e) ↦ (_, send2redis_task_full x i h e, rw e refl)
  ]

  abbrev then_run :
      List (FrameInfo Ptr) → Outcome (Unit {0}) × History → Outcome (Unit {0}) × History
  then_run xs r = elim r.0 [
    | returns a ↦ run_pool (pos (suc seconds)) xs env r.1
    | throws ↦ (throws, r.1)
    | undefined ↦ (undefined, r.1)
  ]

  -- Every task ends, and leaves its image under its key, if it has one.
  pub run_pool-stores :
      (key : Bytes) (xs : List (FrameInfo Ptr)) (h : History)
      → ((run_pool (pos (suc seconds)) xs env h).0 ≡ returns tt)
        × (stored key (run_pool (pos (suc seconds)) xs env h).1
            ≡ after_tasks key (pos (suc seconds)) xs (stored key h))
  run_pool-stores key [] h = (refl, refl)
  run_pool-stores key (x ∷ xs) h =
      let (h', ran, left) = send2redis_task_leaves key x h in
      let (ends, holds) = run_pool-stores key xs h' in
      subst
        (λ r.
          ((then_run xs r).0 ≡ returns tt)
          × (stored key (then_run xs r).1
              ≡ after_tasks key (pos (suc seconds)) (x ∷ xs) (stored key h)))
        (sym ran) (ends, holds ∙ ap (after_tasks key (pos (suc seconds)) xs) left)
