-- ===== src/Hash.antt =====
-- KV-Store/app/Hash/Hash.c: `jenkins_hash`, on a little-endian machine and without VALGRIND. Memory is
-- a function from addresses to bytes, so that the three branches read what lies at the key's address,
-- also the bytes behind the key that the words of the first branch hold.
pub mod Blocks
pub mod Branches
pub mod Command
pub mod Requests
mod Tests
use elastic_actor.Prelude.{
  ℕ, zero, suc, ◌+◌, ◌-◌, ◌*◌, ◌/◌, ◌%◌, ◌^◌, ltb, leb, ◌==◌, if◌then◌else◌, u32, add32, sub32,
}
use Prim.Native.Nat.{bit_xor}

-- `a`, `b` and `c`
pub record Abc : Type 0 where
  pub a : ℕ
  pub b : ℕ
  pub c : ℕ

-- `rot(x,k)`
rot : ℕ → ℕ → ℕ
rot x k = bit_xor (u32 (x * 2 ^ k)) (x / 2 ^ (32 - k))

-- A line `x -= z; x ^= rot(z,k); z += y;` of `mix`: the new `x` and `z`.
mix_line : ℕ → ℕ → ℕ → ℕ → ℕ × ℕ
unfolding rot
mix_line x y z k = (bit_xor (sub32 x z) (rot z k), add32 z y)

-- `mix(a,b,c)`
pub mix : Abc → Abc
unfolding mix_line
mix s =
    let (a, c) = mix_line s.a s.b s.c 4 in
    let (b, a) = mix_line s.b c a 6 in
    let (c, b) = mix_line c a b 8 in
    let (a, c) = mix_line a b c 16 in
    let (b, a) = mix_line b c a 19 in
    let (c, b) = mix_line c a b 4 in record { a = a; b = b; c = c }

-- `x ^= y; x -= rot(y,k);`
final_line : ℕ → ℕ → ℕ → ℕ
unfolding rot
final_line x y k = sub32 (bit_xor x y) (rot y k)

-- `final(a,b,c)`
pub final : Abc → Abc
unfolding final_line
final s =
    let c = final_line s.c s.b 14 in
    let a = final_line s.a c 11 in
    let b = final_line s.b a 25 in
    let c = final_line c b 16 in
    let a = final_line a c 4 in
    let b = final_line b a 14 in let c = final_line c b 24 in record { a = a; b = b; c = c }

-- `k8[i]`, `k[i]` of 16-bit chunks and `k[i]` of 32-bit chunks, for the pointer `k`.
abbrev pub Memory : Type 0
Memory = ℕ → ℕ

abbrev pub byte_at : Memory → ℕ → ℕ → ℕ
byte_at mem k i = mem (k + i)

abbrev pub half_at : Memory → ℕ → ℕ → ℕ
half_at mem k i = mem (k + 2 * i) + 256 * mem (k + (2 * i + 1))

abbrev pub word_at : Memory → ℕ → ℕ → ℕ
word_at mem k i =
    mem (k + 4 * i)
    + 256 * mem (k + (4 * i + 1))
    + 65536 * mem (k + (4 * i + 2))
    + 16777216 * mem (k + (4 * i + 3))

-- `a += x`, `b += x` and `c += x`
abbrev pub add_a : ℕ → Abc → Abc
add_a x s = record s { a = add32 s.a x }

abbrev pub add_b : ℕ → Abc → Abc
add_b x s = record s { b = add32 s.b x }

abbrev pub add_c : ℕ → Abc → Abc
add_c x s = record s { c = add32 s.c x }

-- What a loop adds for a block of 12 bytes, in each branch.
unfoldable pub block_words : Memory → ℕ → Abc → Abc
block_words mem k s = add_c (word_at mem k 2) (add_b (word_at mem k 1) (add_a (word_at mem k 0) s))

-- `k[i] + (((uint32_t)k[i + 1])<<16)`
abbrev pub two_halves : Memory → ℕ → ℕ → ℕ
two_halves mem k i = add32 (half_at mem k i) (u32 (half_at mem k (i + 1) * 2 ^ 16))

unfoldable pub block_halves : Memory → ℕ → Abc → Abc
block_halves mem k s =
    add_c (two_halves mem k 4) (add_b (two_halves mem k 2) (add_a (two_halves mem k 0) s))

-- `((uint32_t)k[i])<<sh`
abbrev pub shifted : Memory → ℕ → ℕ → ℕ → ℕ
shifted mem k i sh = u32 (byte_at mem k i * 2 ^ sh)

unfoldable pub block_bytes : Memory → ℕ → Abc → Abc
block_bytes mem k s =
    let s = add_a (byte_at mem k 0) s in
    let s = add_a (shifted mem k 1 8) s in
    let s = add_a (shifted mem k 2 16) s in
    let s = add_a (shifted mem k 3 24) s in
    let s = add_b (byte_at mem k 4) s in
    let s = add_b (shifted mem k 5 8) s in
    let s = add_b (shifted mem k 6 16) s in
    let s = add_b (shifted mem k 7 24) s in
    let s = add_c (byte_at mem k 8) s in
    let s = add_c (shifted mem k 9 8) s in
    let s = add_c (shifted mem k 10 16) s in add_c (shifted mem k 11 24) s

-- `while (length > 12)`, on fuel; it leaves the pointer, the length and the state.
unfoldable pub blocks : (ℕ → Abc → Abc) → ℕ → ℕ → ℕ → Abc → ℕ × ℕ × Abc
blocks block zero k length s = (k, length, s)
blocks block (suc fuel) k length s =
    let rest = blocks block fuel (k + 12) (length - 12) (mix (block k s)) in
    if ltb 12 length then rest else (k, length, s)

-- The `switch` of the first branch, from case 12 to case 1; `x & 0xffffff` is a remainder.
unfoldable pub tail_words : Memory → ℕ → ℕ → Abc → Abc
tail_words mem k length s =
    let w0 = word_at mem k 0 in
    let w1 = word_at mem k 1 in
    let w2 = word_at mem k 2 in
    if length == 12
    then add_a w0 (add_b w1 (add_c w2 s))
    else if length == 11
    then add_a w0 (add_b w1 (add_c (w2 % 2 ^ 24) s))
    else if length == 10
    then add_a w0 (add_b w1 (add_c (w2 % 2 ^ 16) s))
    else if length == 9
    then add_a w0 (add_b w1 (add_c (w2 % 2 ^ 8) s))
    else if length == 8
    then add_a w0 (add_b w1 s)
    else if length == 7
    then add_a w0 (add_b (w1 % 2 ^ 24) s)
    else if length == 6
    then add_a w0 (add_b (w1 % 2 ^ 16) s)
    else if length == 5
    then add_a w0 (add_b (w1 % 2 ^ 8) s)
    else if length == 4
    then add_a w0 s
    else if length == 3
    then add_a (w0 % 2 ^ 24) s
    else if length == 2
    then add_a (w0 % 2 ^ 16) s
    else if length == 1
    then add_a (w0 % 2 ^ 8) s
    else s

-- The `switch` of the second branch, whose cases fall through in part.
unfoldable pub tail_halves : Memory → ℕ → ℕ → Abc → Abc
tail_halves mem k length s =
    let ab = λ (t : Abc). add_a (two_halves mem k 0) (add_b (two_halves mem k 2) t) in
    let case_10 = λ (t : Abc). ab (add_c (half_at mem k 4) t) in
    let case_6 = λ (t : Abc). add_a (two_halves mem k 0) (add_b (half_at mem k 2) t) in
    let case_4 = λ (t : Abc). add_a (two_halves mem k 0) t in
    let case_2 = λ (t : Abc). add_a (half_at mem k 0) t in
    if length == 12
    then ab (add_c (two_halves mem k 4) s)
    else if length == 11
    then case_10 (add_c (shifted mem k 10 16) s)
    else if length == 10
    then case_10 s
    else if length == 9
    then ab (add_c (byte_at mem k 8) s)
    else if length == 8
    then ab s
    else if length == 7
    then case_6 (add_b (shifted mem k 6 16) s)
    else if length == 6
    then case_6 s
    else if length == 5
    then case_4 (add_b (byte_at mem k 4) s)
    else if length == 4
    then case_4 s
    else if length == 3
    then case_2 (add_a (shifted mem k 2 16) s)
    else if length == 2
    then case_2 s
    else if length == 1
    then add_a (byte_at mem k 0) s
    else s

-- The label `case i`, which is reached from every case above it.
abbrev pub from_case : ℕ → ℕ → (Abc → Abc) → Abc → Abc
from_case length i f s = if leb i length then f s else s

-- The `switch` of the third branch, where all cases fall through; the length is 12 at most.
unfoldable pub tail_bytes : Memory → ℕ → ℕ → Abc → Abc
tail_bytes mem k length s =
    let s = from_case length 12 (add_c (shifted mem k 11 24)) s in
    let s = from_case length 11 (add_c (shifted mem k 10 16)) s in
    let s = from_case length 10 (add_c (shifted mem k 9 8)) s in
    let s = from_case length 9 (add_c (byte_at mem k 8)) s in
    let s = from_case length 8 (add_b (shifted mem k 7 24)) s in
    let s = from_case length 7 (add_b (shifted mem k 6 16)) s in
    let s = from_case length 6 (add_b (shifted mem k 5 8)) s in
    let s = from_case length 5 (add_b (byte_at mem k 4)) s in
    let s = from_case length 4 (add_a (shifted mem k 3 24)) s in
    let s = from_case length 3 (add_a (shifted mem k 2 16)) s in
    let s = from_case length 2 (add_a (shifted mem k 1 8)) s in
    from_case length 1 (add_a (byte_at mem k 0)) s

-- The `switch`, whose `case 0` returns `c` at once, and `final`.
unfoldable pub ending : (ℕ → ℕ → Abc → Abc) → ℕ × ℕ × Abc → ℕ
ending tail (k, rest, s) = if rest == 0 then s.c else (final (tail k rest s)).c

-- A branch, with its loop and its `switch`.
unfoldable pub branch : (ℕ → Abc → Abc) → (ℕ → ℕ → Abc → Abc) → ℕ → ℕ → Abc → ℕ
unfolding blocks ending
branch block tail key length s = ending tail (blocks block length key length s)

-- `a = b = c = 0xdeadbeef + ((uint32_t)length) + 0`
abbrev pub start_of : ℕ → Abc
start_of length = let x = add32 0xdeadbeef (u32 length) in record { a = x; b = x; c = x }

-- `jenkins_hash`, which chooses the branch by the alignment of the key.
unfoldable pub jenkins_hash : Memory → ℕ → ℕ → ℕ
unfolding branch block_words tail_words block_halves tail_halves block_bytes tail_bytes
jenkins_hash mem key length =
    if key % 4 == 0
    then branch (block_words mem) (tail_words mem) key length (start_of length)
    else if key % 2 == 0
    then branch (block_halves mem) (tail_halves mem) key length (start_of length)
    else branch (block_bytes mem) (tail_bytes mem) key length (start_of length)
