-- ===== src/Probe/Stored.antt =====
-- From a batch to Redis: the probe posts the due frames, and the pool stores them in any order.
use demo_colombia.Base.{◌+◌, ◌≤◌, ◌≡◌, sym, ap, subst, ◌∙◌, inl, inr, List, [], ◌∷◌, length}
use demo_colombia.Text.{c_str, decimal_int}
use demo_colombia.Gst.{Ptr}
use demo_colombia.ObjInfo.{FrameInfo}
use demo_colombia.Frames.Pool.Order.{AreTasks, Among}

-- The keys of the frames fit into their buffers, and no two frames have one number and cameras whose
-- names agree up to the first NUL.
abbrev pub AreFrames : List (FrameInfo Ptr) → Type 0
AreFrames [] = Unit
AreFrames (x ∷ xs) =
    (length (c_str x.camera_id) + length (decimal_int x.frame_num) ≤ 1022)
    × ((y : FrameInfo Ptr)
        → Among y xs
        → c_str y.camera_id ≡ c_str x.camera_id
        → y.frame_num ≡ x.frame_num
        → ⊥)
    × AreFrames xs

fits-Among :
    (xs : List (FrameInfo Ptr))
    → AreFrames xs
    → (x : FrameInfo Ptr) → Among x xs
    → length (c_str x.camera_id) + length (decimal_int x.frame_num) ≤ 1022
fits-Among [] v x a = absurd a
fits-Among (y ∷ ys) (fits, once, rest) x (inl e) =
    subst (λ z. length (c_str z.camera_id) + length (decimal_int z.frame_num) ≤ 1022) (sym e) fits
fits-Among (y ∷ ys) (fits, once, rest) x (inr a) = fits-Among ys rest x a

once-Among :
    (xs : List (FrameInfo Ptr))
    → AreFrames xs
    → (x y : FrameInfo Ptr) → Among x xs
    → Among y xs
    → c_str x.camera_id ≡ c_str y.camera_id
    → x.frame_num ≡ y.frame_num
    → x ≡ y
once-Among [] v x y a b c n = absurd a
once-Among (z ∷ zs) v x y (inl e) (inl f) c n = e ∙ sym f
once-Among (z ∷ zs) (fits, once, rest) x y (inl e) (inr b) c n =
    absurd (once y b (sym c ∙ ap (λ t. c_str t.camera_id) e) (sym n ∙ ap (λ t. t.frame_num) e))
once-Among (z ∷ zs) (fits, once, rest) x y (inr a) (inl f) c n =
    absurd (once x a (c ∙ ap (λ t. c_str t.camera_id) f) (n ∙ ap (λ t. t.frame_num) f))
once-Among (z ∷ zs) (fits, once, rest) x y (inr a) (inr b) c n = once-Among zs rest x y a b c n

pub AreFrames-AreTasks : (xs : List (FrameInfo Ptr)) → AreFrames xs → AreTasks xs
AreFrames-AreTasks xs v = record { fits = fits-Among xs v; once = once-Among xs v }
