-- ===== src/Codec/Uvarint.antt =====
-- `binary.PutUvarint` writes a prefix code: what follows a number is told apart from it.
use native.Mathlib.Nat.{pow-suc}
use aegis_link.Common.{ℕ, zero, suc, ◌/◌, ◌^◌, ◌<◌, ◌≡◌, List, ◌++◌, arith}
use aegis_link.Codec.{put_uvarint}

room_left : (room x : ℕ) → x < 128 ^ suc room → x / 128 < 128 ^ room
room_left room x h = let h' = rw pow-suc at h in omega arith

-- Two numbers that fit the room, written before two texts.
pub put_uvarint-inj :
    (room x y : ℕ) (s t : List ℕ)
    → x < 128 ^ room
    → y < 128 ^ room
    → put_uvarint room x ++ s ≡ put_uvarint room y ++ t
    → (x ≡ y) × (s ≡ t)
unfolding put_uvarint
put_uvarint-inj zero x y s t hx hy e = (omega arith, e)
put_uvarint-inj (suc room) x y s t hx hy e = ground (
  arith,
  put_uvarint-inj room (x / 128) (y / 128) s t (room_left room x hx) (room_left room y hy),
)
