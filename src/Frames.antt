-- ===== src/Frames.antt =====
-- perception/src/perception.cpp: `prepareOutputDirectory`, `saveFrameTask` and `send2redisTask`, and the
-- names under which a frame is stored. An image is a `cv::Mat`, none where it is empty.
pub mod Names
pub mod Storage
pub mod Pool
use demo_colombia.Base.{ℕ, zero, suc, ◌+◌, Bool, true, false, ◌++◌, ltb, if◌then◌else◌}
use demo_colombia.Base.Int.{ℤ}
use demo_colombia.Text.{Bytes, c_str, codes, decimal, decimal_int, decimal_padded, snprintf}
use demo_colombia.Gst.{
  Ptr, M, pure, ◌>>=◌, ◌>>◌, tell, attempt, try_or, remove_all, create_directories, cvt_color,
  imencode, imwrite, setex,
}
use demo_colombia.ObjInfo.{FrameInfo}

-- The directory made for the i-th source.
unfoldable pub source_dir : Bytes → ℕ → Bytes
source_dir output_dir i =
    if ltb i 10
    then output_dir ++ (codes "/source0" ++ decimal i)
    else output_dir ++ (codes "/source" ++ decimal i)

unfoldable pub create_from : Bytes → ℕ → ℕ → M Bool
create_from output_dir zero i = pure true
create_from output_dir (suc rounds) i = do
  attempt (create_directories (source_dir output_dir i))
  create_from output_dir rounds (suc i)

-- `num_sources` is the size of the list of sources.
unfoldable pub prepare_output_directory : Bytes → ℕ → M Bool
unfolding create_from
prepare_output_directory output_dir num_sources =
    try_or (attempt (remove_all output_dir) >> create_from output_dir num_sources 0) false

-- The file of a frame: "%s/source%02d/frame_%07d.jpg" in 1024 bytes.
unfoldable pub frame_path : Bytes → ℤ → ℤ → Bytes
unfolding decimal_padded snprintf
frame_path dir pad_index frame_num = snprintf 1024 (
    c_str dir
    ++ (codes "/source"
        ++ (decimal_padded 2 pad_index
            ++ (codes "/frame_" ++ (decimal_padded 7 frame_num ++ codes ".jpg")))))

unfoldable pub save_frame_task : Ptr → Bytes → ℤ → ℤ → M (Unit {0})
unfolding frame_path
save_frame_task frame dir pad_index frame_num =
    try_or
      (do attempt (cvt_color frame); attempt (imwrite (frame_path dir pad_index frame_num) frame))
      tt

-- The key of a frame: "%s_%d" in 1024 bytes.
unfoldable pub redis_key : Bytes → ℤ → Bytes
unfolding decimal_int snprintf
redis_key camera_id frame_num =
    snprintf 1024 (c_str camera_id ++ (codes "_" ++ decimal_int frame_num))

unfoldable pub send2redis_task : ℤ → FrameInfo Ptr → M (Unit {0})
unfolding redis_key
send2redis_task ttl info =
    try_or
      (do
        attempt (cvt_color info.frame)
        attempt (imencode info.frame)
        attempt (setex (redis_key info.camera_id info.frame_num) ttl info.frame))
      tt
