-- ===== src/Examples/Storing.antt =====
-- The theorems on the names of frames and the directories at one camera.
use demo_colombia.Base.{ℕ, ◌≡◌, ◌≤◌, ◌<◌, ◌+◌, refl, true, [], ◌++◌, arith, length}
use demo_colombia.Base.Int.{pos}
use demo_colombia.Text.{Bytes, c_str, codes, decimal_int, decimal_padded, decimal}
use demo_colombia.Gst.{returns, flag, create_directories}
use demo_colombia.Gst.Ensures.{Returns}
use demo_colombia.Frames.{create_from, source_dir, prepare_output_directory, frame_path}
use demo_colombia.Frames.Names.{redis_key_injective, frame_path_prepared}
use demo_colombia.Frames.Storage.{Logged, prepare_output_directory_makes}
use demo_colombia.Examples.{willing}

key_fits : length (codes "c1") + length (decimal_int (pos 12)) ≤ 1022
unfolding decimal_int
key_fits = omega arith

redis_key_injective_example : (c_str (codes "c1") ≡ c_str (codes "c1")) × (pos 12 ≡ pos 12)
redis_key_injective_example =
    redis_key_injective (codes "c1") (codes "c1") (pos 12) (pos 12) key_fits key_fits refl

path_fits :
    length (codes "/out") + length (decimal_padded 2 (pos 3)) + length (decimal_padded 7 (pos 12))
    ≤ 1005
unfolding decimal_padded decimal
path_fits = omega arith

prepared : (prepare_output_directory (codes "/out") 4 willing []).0 ≡ returns true
unfolding prepare_output_directory create_from
prepared = refl

frame_path_prepared_example :
    (made : Bytes) × Logged
      (create_directories made, flag true)
      (prepare_output_directory (codes "/out") 4 willing []).1
    × (frame_path (codes "/out") (pos 3) (pos 12)
        ≡ made ++ (codes "/frame_" ++ (decimal_padded 7 (pos 12) ++ codes ".jpg")))
frame_path_prepared_example =
    frame_path_prepared (codes "/out") 4 3 (pos 12) willing [] refl path_fits prepared (omega arith)

prepare_output_directory_makes_example :
    Returns
      (λ ok.
        ok ≡ true
        → (j : ℕ) → j < 2
        → Logged
            (create_directories (source_dir (codes "/out") j), flag true)
            (prepare_output_directory (codes "/out") 2 willing []).1)
      (prepare_output_directory (codes "/out") 2 willing []).0
prepare_output_directory_makes_example = prepare_output_directory_makes (codes "/out") willing 2 []
