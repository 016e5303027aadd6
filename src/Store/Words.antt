-- ===== src/Store/Words.antt =====
-- encoding/binary, little endian: fixed-width numbers in a file.
use r_dns_crawler.Base.{
  ℕ, zero, suc, ◌+◌, ◌*◌, ◌/◌, ◌%◌, ◌^◌, ◌<◌, ◌≡◌, refl, [], ◌∷◌, ◌++◌, Bytes, length, take, ◌≤◌,
  arith,
}

-- `PutUint16`, `PutUint32`, `PutUint64`: so many bytes, the lowest first.
unfoldable pub put_le : ℕ → ℕ → Bytes
put_le zero v = []
put_le (suc k) v = (v % 256) ∷ put_le k (v / 256)

-- `Uint16`, `Uint32`, `Uint64` on a slice that is long enough.
unfoldable pub get_le : ℕ → Bytes → ℕ
get_le zero b = 0
get_le (suc k) [] = 0
get_le (suc k) (c ∷ b) = c + 256 * get_le k b

pub length-put_le : (k v : ℕ) → length (put_le k v) ≡ k
unfolding put_le
length-put_le zero v = refl
length-put_le (suc k) v = omega (arith, length-put_le k (v / 256))

pub get_le-put_le : (k v : ℕ) (rest : Bytes) → v < 256 ^ k → get_le k (put_le k v ++ rest) ≡ v
unfolding put_le get_le
get_le-put_le zero v rest h = omega arith
get_le-put_le (suc k) v rest h = omega (arith, get_le-put_le k (v / 256) rest (smaller k v h))
  where
    smaller : (k v : ℕ) → v < 256 ^ suc k → v / 256 < 256 ^ k
    smaller k v h = omega arith

-- A number is read from its own bytes alone.
pub get_le-take : (k n : ℕ) (b : Bytes) → k ≤ n → get_le k (take n b) ≡ get_le k b
unfolding get_le
get_le-take zero n b h = refl
get_le-take (suc k) zero b h = absurd (omega arith)
get_le-take (suc k) (suc n) [] h = refl
get_le-take (suc k) (suc n) (c ∷ b) h = omega (arith, get_le-take k n b (omega arith))
