-- ===== src/Store/Varint.antt =====
-- The unsigned varints of encoding/binary, as internal/store/writer.go (`appendUvarint`) and
-- internal/store/reader.go use them.
use native.Mathlib.Nat.{div-add-mod}
use native.Mathlib.Numerals.{towards_suc}
use r_dns_crawler.Base.{
  ℕ, zero, suc, ◌+◌, ◌*◌, ◌/◌, ◌%◌, ◌^◌, ◌<◌, ◌≡◌, refl, ap, ◌&&◌, [], ◌∷◌, ◌++◌, Option, some,
  none, Bytes, ltb, ◌==◌, if◌then◌else◌, length, arith,
}

-- `binary.PutUvarint` into a buffer with room for so many bytes; `byte(x) | 0x80` is the low seven
-- bits with the top bit set.
unfoldable pub put_uvarint : ℕ → ℕ → Bytes
put_uvarint zero v = []
put_uvarint (suc room) v =
    let rest = put_uvarint room (v / 128) in if ltb v 128 then v ∷ [] else (v % 128 + 128) ∷ rest

-- `appendUvarint`: the buffer is [binary.MaxVarintLen64]byte.
unfoldable pub append_uvarint : Bytes → ℕ → Bytes
unfolding put_uvarint
append_uvarint b v = b ++ put_uvarint 10 v

-- The loop of `binary.Uvarint`: `none` stands for n <= 0, and otherwise the rest is what follows
-- the first n bytes. `x | b<<s` is a sum, since `x` is below 2 ^ s.
unfoldable pub uvarint_loop : Bytes → ℕ → ℕ → ℕ → Option (ℕ × Bytes)
uvarint_loop [] i x s = none
uvarint_loop (b ∷ bs) i x s =
    let more = uvarint_loop bs (i + 1) (x + b % 128 * 2 ^ s % 2 ^ 64) (s + 7) in
    if i == 10
    then none
    else if ltb b 128
    then (if i == 9 && ltb 1 b then none else some (x + b * 2 ^ s % 2 ^ 64, bs))
    else more

unfoldable pub uvarint : Bytes → Option (ℕ × Bytes)
unfolding uvarint_loop
uvarint buf = uvarint_loop buf 0 0 0

uvarint_sample :
    uvarint (append_uvarint [] 0xffff_ffff_ffff_ffff ++ (7 ∷ []))
    ≡ some (0xffff_ffff_ffff_ffff, 7 ∷ [])
unfolding uvarint append_uvarint
uvarint_sample = refl

split_group : (v s : ℕ) → v * 2 ^ s ≡ v % 128 * 2 ^ s + v / 128 * 2 ^ (s + 7)
split_group v s =
    omega
      (arith, ap (λ (t : ℕ). t * 2 ^ s) (div-add-mod v 128), ap (λ (t : ℕ). v / 128 * t) shifted)
  where
    shifted : 2 ^ (s + 7) ≡ 128 * 2 ^ s
    shifted = simp towards_suc (omega arith)

uvarint_loop-put_uvarint :
    (room i v x s : ℕ) (rest : Bytes)
    → room + i ≡ 9
    → s ≡ 7 * i
    → v < 128 ^ suc room
    → x + v * 2 ^ s < 2 ^ 64
    → uvarint_loop (put_uvarint (suc room) v ++ rest) i x s ≡ some (x + v * 2 ^ s, rest)
unfolding put_uvarint uvarint_loop
uvarint_loop-put_uvarint zero i v x s rest hi hs hv fits = ground arith
uvarint_loop-put_uvarint (suc room) i v x s rest hi hs hv fits = ground (
  arith,
  split_group v s,
  uvarint_loop-put_uvarint room (i + 1) (v / 128) (x + v % 128 * 2 ^ s) (s + 7) rest,
)

-- A uint64 is read back, and what follows it is left.
pub uvarint-append_uvarint :
    (v : ℕ) (rest : Bytes) → v < 2 ^ 64 → uvarint (append_uvarint [] v ++ rest) ≡ some (v, rest)
unfolding uvarint append_uvarint
uvarint-append_uvarint v rest h = ground (arith, uvarint_loop-put_uvarint 9 0 v 0 0 rest)

uvarint_loop_takes :
    (b : Bytes) (i x s v : ℕ) (rest : Bytes)
    → uvarint_loop b i x s ≡ some (v, rest)
    → length rest < length b
unfolding uvarint_loop
uvarint_loop_takes [] i x s v rest e = cc
uvarint_loop_takes (c ∷ b) i x s v rest e =
    ground (arith, uvarint_loop_takes b (i + 1) (x + c % 128 * 2 ^ s % 2 ^ 64) (s + 7) v rest)

-- A number takes a byte at least.
pub uvarint_takes :
    (b : Bytes) (v : ℕ) (rest : Bytes) → uvarint b ≡ some (v, rest) → length rest < length b
unfolding uvarint
uvarint_takes b v rest e = uvarint_loop_takes b 0 0 0 v rest e
