-- ===== src/Checkpoint/Bytes.antt =====
-- The little-endian lengths of src/checkpoint.cpp: `put_u64` and `get_u64`.
use cogg_cpp.Base.{ℕ, zero, suc, ◌*◌, ◌/◌, ◌<◌, ◌≡◌, refl, ◌++◌, length, Text, arith}
use cogg_cpp.Checkpoint.{put_bytes, get_bytes}

abbrev pub bytes_bound : ℕ → ℕ
bytes_bound zero = 1
bytes_bound (suc n) = 256 * bytes_bound n

pub get_bytes-put_bytes :
    (n value : ℕ) (rest : Text)
    → value < bytes_bound n
    → get_bytes n (put_bytes n value ++ rest) ≡ value
unfolding get_bytes put_bytes
get_bytes-put_bytes zero value rest h = omega arith
get_bytes-put_bytes (suc n) value rest h =
    omega (arith, get_bytes-put_bytes n (value / 256) rest (omega arith))

pub length-put_bytes : (n value : ℕ) → length (put_bytes n value) ≡ n
unfolding put_bytes
length-put_bytes zero value = refl
length-put_bytes (suc n) value = omega (arith, length-put_bytes n (value / 256))
