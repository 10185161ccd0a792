-- ===== src/Codec/Fixed.antt =====
-- `binary.BigEndian.PutUint64` writes eight bytes, which give the number back.
use aegis_link.Common.{ℕ, ◌/◌, ◌%◌, ◌^◌, ◌<◌, ◌≡◌, List, ◌++◌, arith}
use aegis_link.Codec.{put_uint64}

bytes_determine :
    (x y : ℕ)
    → x < 2 ^ 64
    → y < 2 ^ 64
    → x / 2 ^ 56 % 256 ≡ y / 2 ^ 56 % 256
    → x / 2 ^ 48 % 256 ≡ y / 2 ^ 48 % 256
    → x / 2 ^ 40 % 256 ≡ y / 2 ^ 40 % 256
    → x / 2 ^ 32 % 256 ≡ y / 2 ^ 32 % 256
    → x / 2 ^ 24 % 256 ≡ y / 2 ^ 24 % 256
    → x / 2 ^ 16 % 256 ≡ y / 2 ^ 16 % 256
    → x / 2 ^ 8 % 256 ≡ y / 2 ^ 8 % 256
    → x % 256 ≡ y % 256
    → x ≡ y
bytes_determine x y hx hy e7 e6 e5 e4 e3 e2 e1 e0 = omega arith

pub put_uint64-inj :
    (x y : ℕ) (s t : List ℕ)
    → x < 2 ^ 64
    → y < 2 ^ 64
    → put_uint64 x ++ s ≡ put_uint64 y ++ t
    → (x ≡ y) × (s ≡ t)
unfolding put_uint64
put_uint64-inj x y s t hx hy e =
    (bytes_determine x y hx hy (cc) (cc) (cc) (cc) (cc) (cc) (cc) (cc), cc)
