-- ===== src/Frames/Names.antt =====
-- The names of stored frames: a saved frame goes into a directory that was prepared, and keys differ.
use demo_colombia.Base.{
  true, ◌<◌, ℕ, zero, suc, ◌+◌, ◌-◌, ◌≤◌, ◌≡◌, refl, sym, ap, ◌∙◌, inl, inr, List, [], ◌∷◌, ◌++◌,
  append_assoc, ltb, Bool-cases, length, length-append, take, arith, if◌then◌else◌,
}
use demo_colombia.Base.Int.{ℤ, pos}
use demo_colombia.Text.{
  Bytes, c_str, codes, decimal, decimal_int, decimal_padded, pad_zeros, snprintf,
}
use demo_colombia.Text.Decimal.{decimal_small, two-le-length-decimal}
use demo_colombia.Text.Underscore.{append_split, decimal_int-Lacks, decimal_int_injective}
use demo_colombia.Gst.{Env, History, returns, flag, create_directories}
use demo_colombia.Gst.Ensures.{Returns-returned}
use demo_colombia.Frames.Storage.{Logged, prepare_output_directory_makes}
use demo_colombia.Frames.{prepare_output_directory, source_dir, frame_path, redis_key}

pub take_all {ℓ} : {A : Type ℓ} (n : ℕ) (xs : List A) → length xs ≤ n → take n xs ≡ xs
take_all zero [] h = refl
take_all zero (x ∷ xs) h = elim h [ ]
take_all (suc n) [] h = refl
take_all (suc n) (x ∷ xs) h = ap (◌∷◌ x) (take_all n xs (omega arith))

-- A text that fits is written whole.
pub snprintf_fits : (n : ℕ) (s : Bytes) → length s + 1 ≤ n → snprintf n s ≡ s
unfolding snprintf
snprintf_fits n s h = take_all (n - 1) s (omega arith)

-- A key that fits is the camera, an underscore and the frame number.
redis_key_fits :
    (camera : Bytes) (frame : ℤ)
    → length (c_str camera) + length (decimal_int frame) ≤ 1022
    → redis_key camera frame ≡ c_str camera ++ (codes "_" ++ decimal_int frame)
unfolding redis_key
redis_key_fits camera frame h =
    snprintf_fits 1024 (c_str camera ++ (codes "_" ++ decimal_int frame))
      (omega (arith, length-append (c_str camera) (codes "_" ++ decimal_int frame)))

-- Where the keys fit into the buffer, two frames are stored under one key only if they have one number
-- and the names of their cameras are the same up to the first NUL.
pub redis_key_injective :
    (camera camera' : Bytes) (frame frame' : ℤ)
    → length (c_str camera) + length (decimal_int frame) ≤ 1022
    → length (c_str camera') + length (decimal_int frame') ≤ 1022
    → redis_key camera frame ≡ redis_key camera' frame'
    → (c_str camera ≡ c_str camera') × (frame ≡ frame')
redis_key_injective camera camera' frame frame' h h' e =
    let (same, tails) =
      append_split b'_' (c_str camera) (c_str camera') (decimal_int frame) (decimal_int frame')
        (decimal_int-Lacks frame) (decimal_int-Lacks frame')
        (sym (redis_key_fits camera frame h) ∙ e ∙ redis_key_fits camera' frame' h') in
    (same, decimal_int_injective frame frame' tails)

-- Two digits, as %02d writes a pad index.
decimal_padded_two :
    (i : ℕ) → decimal_padded 2 (pos i) ≡ (if ltb i 10 then b'0' ∷ decimal i else decimal i)
unfolding decimal_padded pad_zeros
decimal_padded_two i = elim (Bool-cases (ltb i 10)) [
  | inl one ↦ rw (one, decimal_small i (ground arith))
  | inr more ↦ rw more (ground (arith, two-le-length-decimal i (ground arith)))
]

abbrev frame_name : ℤ → Bytes
frame_name frame = codes "/frame_" ++ (decimal_padded 7 frame ++ codes ".jpg")

frame_path_fits :
    (dir : Bytes) (pad frame : ℤ)
    → length (c_str dir) + length (decimal_padded 2 pad) + length (decimal_padded 7 frame) ≤ 1005
    → frame_path dir pad frame
      ≡ c_str dir ++ (codes "/source" ++ (decimal_padded 2 pad ++ frame_name frame))
unfolding frame_path
frame_path_fits dir pad frame h =
    snprintf_fits 1024
      (c_str dir ++ (codes "/source" ++ (decimal_padded 2 pad ++ frame_name frame)))
      (omega (
        arith,
        length-append (c_str dir) (codes "/source" ++ (decimal_padded 2 pad ++ frame_name frame)),
        length-append (decimal_padded 2 pad) (frame_name frame),
        length-append (decimal_padded 7 frame) (codes ".jpg"),
      ))

padded_dir :
    (dir rest : Bytes) (i : ℕ)
    → dir ++ (codes "/source" ++ ((if ltb i 10 then b'0' ∷ decimal i else decimal i) ++ rest))
      ≡ source_dir dir i ++ rest
unfolding source_dir
padded_dir dir rest i = elim (Bool-cases (ltb i 10)) [
  | inl one ↦ rw one (sym (append_assoc dir (codes "/source0" ++ decimal i) rest))
  | inr more ↦ rw more (sym (append_assoc dir (codes "/source" ++ decimal i) rest))
]

frame_path_in :
    (dir : Bytes) (i : ℕ) (frame : ℤ)
    → c_str dir ≡ dir
    → length dir + length (decimal_padded 2 (pos i)) + length (decimal_padded 7 frame) ≤ 1005
    → frame_path dir (pos i) frame
      ≡ source_dir dir i ++ (codes "/frame_" ++ (decimal_padded 7 frame ++ codes ".jpg"))
frame_path_in dir i frame whole h =
    let few : length (c_str dir)
          + length (decimal_padded 2 (pos i))
          + length (decimal_padded 7 frame)
        ≤ 1005 =
      rw whole h in
    frame_path_fits dir (pos i) frame few
    ∙ ap (λ d. d ++ (codes "/source" ++ (decimal_padded 2 (pos i) ++ frame_name frame))) whole
    ∙ ap (λ digits. dir ++ (codes "/source" ++ (digits ++ frame_name frame))) (decimal_padded_two i)
    ∙ padded_dir dir (frame_name frame) i

-- Where `prepareOutputDirectory` reports success, the output directory has no NUL in its name and the
-- path fits into the buffer, a frame of any pad index below the number of sources is saved into a
-- directory that was made.
pub frame_path_prepared :
    (dir : Bytes) (n i : ℕ) (frame : ℤ) (env : Env) (h : History)
    → c_str dir ≡ dir
    → length dir + length (decimal_padded 2 (pos i)) + length (decimal_padded 7 frame) ≤ 1005
    → (prepare_output_directory dir n env h).0 ≡ returns true
    → i < n
    → (made : Bytes) × Logged
        (create_directories made, flag true)
        (prepare_output_directory dir n env h).1
      × (frame_path dir (pos i) frame
          ≡ made ++ (codes "/frame_" ++ (decimal_padded 7 frame ++ codes ".jpg")))
frame_path_prepared dir n i frame env h whole few ok lt = (
  source_dir dir i,
  Returns-returned
      (λ b.
        b ≡ true
        → (j : ℕ) → j < n
        → Logged (create_directories (source_dir dir j), flag true)
            (prepare_output_directory dir n env h).1)
      (prepare_output_directory dir n env h).0 (prepare_output_directory_makes dir env n h) ok refl
      i lt,
  frame_path_in dir i frame whole few,
)
