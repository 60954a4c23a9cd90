-- ===== src/Frames/Pool/Order.antt =====
-- The order in which the pool runs its tasks makes no difference to what Redis holds.
use demo_colombia.Base.{
  suc, ◌<◌, ◌^◌, ◌≢◌, Option-cases, ℕ, ◌+◌, ◌≤◌, ◌≡◌, refl, sym, ap, subst, ◌∙◌, ◌⊎◌, inl, inr,
  some, List, [], ◌∷◌, length,
}
use demo_colombia.Base.Int.{pos, ℤ}
use demo_colombia.Text.{c_str, Bytes, decimal_int}
use demo_colombia.Base.{◌↔◌}
use demo_colombia.Gst.{returns, Ptr, Env, History}
use demo_colombia.ObjInfo.{FrameInfo}
use demo_colombia.Frames.Names.{redis_key_injective}
use demo_colombia.Frames.Pool.{
  Entry, left_by, Bytes-discrete, key_of, after_task, after_tasks, run_pool, run_pool-stores, Works,
  stored,
}

-- A task with an image, among others.
abbrev pub Among : FrameInfo Ptr → List (FrameInfo Ptr) → Type 0
Among x [] = ⊥
Among x (y ∷ ys) = (x ≡ y) ⊎ Among x ys

-- The same tasks, in any order.
abbrev pub SameTasks : List (FrameInfo Ptr) → List (FrameInfo Ptr) → Type 0
SameTasks xs ys = (x : FrameInfo Ptr) → Among x xs ↔ Among x ys

-- The keys fit into their buffers, and a camera's frame is posted once, where a camera's name is read
-- up to its first NUL.
pub record AreTasks (xs : List (FrameInfo Ptr)) : Type 0 where
  pub fits :
      (x : FrameInfo Ptr)
      → Among x xs
      → length (c_str x.camera_id) + length (decimal_int x.frame_num) ≤ 1022
  pub once :
      (x y : FrameInfo Ptr)
      → Among x xs
      → Among y xs
      → c_str x.camera_id ≡ c_str y.camera_id
      → x.frame_num ≡ y.frame_num
      → x ≡ y

left_by_cases :
    {P : Type 0} (ttl : ℤ) (image : Ptr) (d : Dec P) (old : Entry)
    → (P × (left_by ttl image d old ≡ some (ttl, image))) ⊎ (¬ P × (left_by ttl image d old ≡ old))
left_by_cases ttl image (yes same) old = inl (same, refl)
left_by_cases ttl image (no other) old = inr (other, refl)

after_task-image :
    (key : Bytes) (ttl : ℤ) (x : FrameInfo Ptr) (i : ℕ) (old : Entry)
    → x.frame ≡ some i
    → after_task key ttl x old ≡ left_by ttl (some i) (Bytes-discrete (key_of x) key) old
after_task-image key ttl x i old e = rw e refl

after_task_cases :
    (key : Bytes) (ttl : ℤ) (x : FrameInfo Ptr) (old : Entry)
    → ((i : ℕ) × (x.frame ≡ some i)
        × (key_of x ≡ key)
        × (after_task key ttl x old ≡ some (ttl, some i)))
      ⊎ (((i : ℕ) → x.frame ≡ some i → key_of x ≡ key → ⊥) × (after_task key ttl x old ≡ old))
after_task_cases key ttl x old = elim (Option-cases x.frame) [
  | inl e ↦ inr (λ i f k. cc, rw e refl)
  | inr (i, e) ↦
      let opened = after_task-image key ttl x i old e in
      elim (left_by_cases ttl (some i) (Bytes-discrete (key_of x) key) old) [
        | inl (k, r) ↦ inl (i, e, k, opened ∙ r)
        | inr (other, r) ↦ inr (λ j f l. other l, opened ∙ r)
      ]
]

-- Some task has an image for the key and its image is left; or none has, and nothing changes.
after_tasks_cases :
    (key : Bytes) (ttl : ℤ) (xs : List (FrameInfo Ptr)) (old : Entry)
    → ((x : FrameInfo Ptr) × (i : ℕ) × Among x xs
        × (x.frame ≡ some i)
        × (key_of x ≡ key)
        × (after_tasks key ttl xs old ≡ some (ttl, some i)))
      ⊎ (((x : FrameInfo Ptr) (i : ℕ) → Among x xs → x.frame ≡ some i → key_of x ≡ key → ⊥)
          × (after_tasks key ttl xs old ≡ old))
after_tasks_cases key ttl [] old = inr (λ x i a e k. a, refl)
after_tasks_cases key ttl (x ∷ xs) old =
    elim (after_tasks_cases key ttl xs (after_task key ttl x old)) [
      | inl (y, i, a, e, k, r) ↦ inl (y, i, inr a, e, k, r)
      | inr (absent, kept) ↦ elim (after_task_cases key ttl x old) [
        | inl (i, e, k, r) ↦ inl (x, i, inl refl, e, k, kept ∙ r)
        | inr (other, r) ↦ inr (
          λ y i a e k. elim a [
            | inl here ↦ other i (ap (λ z. z.frame) (sym here) ∙ e) (ap key_of (sym here) ∙ k)
            | inr there ↦ absent y i there e k
          ],
          kept ∙ r,
        )
      ]
    ]

module _ (ttl : ℤ) (xs ys : List (FrameInfo Ptr)) (tasks : AreTasks xs)
    (same : SameTasks xs ys) where
  -- Two tasks with one key have one image.
  one_image :
      (x y : FrameInfo Ptr) (i j : ℕ)
      → Among x xs
      → Among y xs
      → x.frame ≡ some i
      → y.frame ≡ some j
      → key_of x ≡ key_of y
      → i ≡ j
  one_image x y i j a b e f k =
      let (camera, number) =
        redis_key_injective x.camera_id y.camera_id x.frame_num y.frame_num (tasks.fits x a)
          (tasks.fits y b) k in
      some_injective (sym e ∙ ap (λ z. z.frame) (tasks.once x y a b camera number) ∙ f)
    where
      some_injective : {m n : ℕ} → some m ≡ some n → m ≡ n
      some_injective h = cc

  after_tasks-image :
      (x : FrameInfo Ptr) (i : ℕ) (old : Entry)
      → Among x xs
      → x.frame ≡ some i
      → after_tasks (key_of x) ttl ys old ≡ some (ttl, some i)
  after_tasks-image x i old a e = elim (after_tasks_cases (key_of x) ttl ys old) [
    | inl (y, j, b, f, k, r) ↦
        r ∙ ap (λ n. some (ttl, some n)) (one_image y x j i ((same y).1 b) a f e k)
    | inr (absent, kept) ↦ absurd (absent x i ((same x).0 a) e refl)
  ]

  after_tasks-absent :
      (key : Bytes) (old : Entry)
      → ((x : FrameInfo Ptr) → Among x xs → key_of x ≢ key)
      → after_tasks key ttl ys old ≡ old
  after_tasks-absent key old absent = elim (after_tasks_cases key ttl ys old) [
    | inl (y, j, b, f, l, s) ↦ absurd (absent y ((same y).1 b) l)
    | inr (none_there, kept) ↦ kept
  ]

  after_tasks-order :
      (key : Bytes) (old : Entry) → after_tasks key ttl xs old ≡ after_tasks key ttl ys old
  after_tasks-order key old = elim (after_tasks_cases key ttl xs old) [
    | inl (x, i, a, e, k, r) ↦
        r
        ∙ sym (
            subst (λ t. after_tasks t ttl ys old ≡ some (ttl, some i)) k
              (after_tasks-image x i old a e))
    | inr (absent, kept) ↦ elim (after_tasks_cases key ttl ys old) [
      | inl (y, j, b, f, l, s) ↦ absurd (absent y j ((same y).1 b) f l)
      | inr (absent', kept') ↦ kept ∙ sym kept'
    ]
  ]

-- If OpenCV and Redis work, the time to live is from 1 to 2^32 seconds, the keys fit into their buffers
-- and no two tasks are of one frame number and of cameras whose names agree up to the first NUL, then
-- the order in which the pool runs the tasks, one after another, makes no difference: every task ends,
-- and afterwards Redis holds each task's image under its key, and under the keys of no task what it
-- held before.
pub run_pool-order :
    (env : Env) (seconds : ℕ) (xs ys : List (FrameInfo Ptr)) (key : Bytes) (h : History)
    → Works env
    → seconds < 2 ^ 32
    → AreTasks xs
    → SameTasks xs ys
    → let ttl = pos (suc seconds) in
      ((run_pool ttl ys env h).0 ≡ returns tt)
      × (stored key (run_pool ttl xs env h).1 ≡ stored key (run_pool ttl ys env h).1)
      × ((x : FrameInfo Ptr) (i : ℕ)
          → Among x xs
          → x.frame ≡ some i
          → stored (key_of x) (run_pool ttl ys env h).1 ≡ some (ttl, some i))
      × (((x : FrameInfo Ptr) → Among x xs → key_of x ≢ key)
          → stored key (run_pool ttl ys env h).1 ≡ stored key h)
run_pool-order env seconds xs ys key h works few tasks same =
    let ttl = pos (suc seconds) in
    let left = run_pool-stores env works seconds few key xs h in
    let right = run_pool-stores env works seconds few key ys h in
    (
      right.0,
      left.1 ∙ after_tasks-order ttl xs ys tasks same key (stored key h) ∙ sym right.1,
      λ x i a e.
          (run_pool-stores env works seconds few (key_of x) ys h).1
          ∙ after_tasks-image ttl xs ys tasks same x i (stored (key_of x) h) a e,
      λ absent. right.1 ∙ after_tasks-absent ttl xs ys tasks same key (stored key h) absent,
    )
