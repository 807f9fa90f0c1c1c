-- ===== src/Hash/Blocks.antt =====
-- The blocks of 12 bytes and the last blocks of KV-Store/app/Hash/Hash.c.
use elastic_actor.Prelude.{ℕ, zero, suc, ◌+◌, ◌*◌, ◌%◌, ◌^◌, ◌<◌, ◌≤◌, ◌≡◌, refl, arith, u32, add32}
use elastic_actor.Hash.{
  Abc, Memory, shifted, block_words, block_halves, block_bytes, tail_words, tail_halves, tail_bytes,
}

abbrev pub IsBytes : Memory → Type 0
IsBytes mem = (i : ℕ) → mem i < 256

-- The bytes of a word that are added from the last one, as the fall-through does.
abbrev pub down4 : ℕ → ℕ → ℕ → ℕ → ℕ → ℕ
down4 x p q r s =
    add32 (add32 (add32 (add32 x (u32 (s * 2 ^ 24))) (u32 (r * 2 ^ 16))) (u32 (q * 2 ^ 8))) p

abbrev up4 : ℕ → ℕ → ℕ → ℕ → ℕ → ℕ
up4 x p q r s =
    add32 (add32 (add32 (add32 x p) (u32 (q * 2 ^ 8))) (u32 (r * 2 ^ 16))) (u32 (s * 2 ^ 24))

abc_eq :
    {a b c a' b' c' : ℕ}
    → a ≡ a'
    → b ≡ b'
    → c ≡ c'
    → ◌≡◌ {A = Abc} (record { a = a; b = b; c = c }) (record { a = a'; b = b'; c = c' })
abc_eq p q r i = record { a = p i; b = q i; c = r i }

module _ (x p q r s : ℕ) (hp : p < 256) (hq : q < 256) (hr : r < 256) (hs : s < 256) where
  abbrev word : ℕ
  word = p + 256 * q + 65536 * r + 16777216 * s

  up_word : add32 x word ≡ up4 x p q r s
  up_word = omega arith

  up_halves : add32 x (add32 (p + 256 * q) (u32 ((r + 256 * s) * 2 ^ 16))) ≡ up4 x p q r s
  up_halves = omega arith

  down_word : add32 x word ≡ down4 x p q r s
  down_word = omega arith

  down_halves : add32 x (add32 (p + 256 * q) (u32 ((r + 256 * s) * 2 ^ 16))) ≡ down4 x p q r s
  down_halves = omega arith

  down_mask24 :
      add32 x (word % 2 ^ 24) ≡ add32 (add32 (add32 x (u32 (r * 2 ^ 16))) (u32 (q * 2 ^ 8))) p
  down_mask24 = omega arith

  down_mask16 : add32 x (word % 2 ^ 16) ≡ add32 (add32 x (u32 (q * 2 ^ 8))) p
  down_mask16 = omega arith

  down_mask8 : add32 x (word % 2 ^ 8) ≡ add32 x p
  down_mask8 = omega arith

down_half : (x p q : ℕ) → add32 x (p + 256 * q) ≡ add32 (add32 x (u32 (q * 2 ^ 8))) p
down_half x p q = omega arith

-- A law of four bytes, taken at the bytes from `k + i` on.
module _ (mem : Memory) (bytes : IsBytes mem) (k : ℕ) where
  abbrev at4 :
      {P : ℕ → ℕ → ℕ → ℕ → ℕ → Type 0}
      → ((x p q r s : ℕ) → p < 256 → q < 256 → r < 256 → s < 256 → P x p q r s)
      → (i x : ℕ) → P x (mem (k + i)) (mem (k + (i + 1))) (mem (k + (i + 2))) (mem (k + (i + 3)))
  at4 law i x =
      law x (mem (k + i)) (mem (k + (i + 1))) (mem (k + (i + 2))) (mem (k + (i + 3))) (bytes _)
        (bytes _) (bytes _) (bytes _)

  pub block_words-bytes : (s : Abc) → block_words mem k s ≡ block_bytes mem k s
  unfolding block_words block_bytes
  block_words-bytes s = abc_eq (at4 up_word 0 s.a) (at4 up_word 4 s.b) (at4 up_word 8 s.c)

  pub block_halves-bytes : (s : Abc) → block_halves mem k s ≡ block_bytes mem k s
  unfolding block_halves block_bytes
  block_halves-bytes s = abc_eq (at4 up_halves 0 s.a) (at4 up_halves 4 s.b) (at4 up_halves 8 s.c)

  pub tail_words-bytes : (n : ℕ) (s : Abc) → n ≤ 12 → tail_words mem k n s ≡ tail_bytes mem k n s
  unfolding tail_words tail_bytes
  tail_words-bytes zero s h = abc_eq refl refl refl
  tail_words-bytes (suc zero) s h = abc_eq (at4 down_mask8 0 s.a) refl refl
  tail_words-bytes (suc (suc zero)) s h = abc_eq (at4 down_mask16 0 s.a) refl refl
  tail_words-bytes (suc (suc (suc zero))) s h = abc_eq (at4 down_mask24 0 s.a) refl refl
  tail_words-bytes (suc (suc (suc (suc zero)))) s h = abc_eq (at4 down_word 0 s.a) refl refl
  tail_words-bytes (suc (suc (suc (suc (suc zero))))) s h =
      abc_eq (at4 down_word 0 s.a) (at4 down_mask8 4 s.b) refl
  tail_words-bytes (suc (suc (suc (suc (suc (suc zero)))))) s h =
      abc_eq (at4 down_word 0 s.a) (at4 down_mask16 4 s.b) refl
  tail_words-bytes (suc (suc (suc (suc (suc (suc (suc zero))))))) s h =
      abc_eq (at4 down_word 0 s.a) (at4 down_mask24 4 s.b) refl
  tail_words-bytes (suc (suc (suc (suc (suc (suc (suc (suc zero)))))))) s h =
      abc_eq (at4 down_word 0 s.a) (at4 down_word 4 s.b) refl
  tail_words-bytes (suc (suc (suc (suc (suc (suc (suc (suc (suc zero))))))))) s h =
      abc_eq (at4 down_word 0 s.a) (at4 down_word 4 s.b) (at4 down_mask8 8 s.c)
  tail_words-bytes (suc (suc (suc (suc (suc (suc (suc (suc (suc (suc zero)))))))))) s h =
      abc_eq (at4 down_word 0 s.a) (at4 down_word 4 s.b) (at4 down_mask16 8 s.c)
  tail_words-bytes (suc (suc (suc (suc (suc (suc (suc (suc (suc (suc (suc zero))))))))))) s h =
      abc_eq (at4 down_word 0 s.a) (at4 down_word 4 s.b) (at4 down_mask24 8 s.c)
  tail_words-bytes (suc (suc (suc (suc (suc (suc (suc (suc (suc (suc (suc (suc zero)))))))))))) s
        h =
      abc_eq (at4 down_word 0 s.a) (at4 down_word 4 s.b) (at4 down_word 8 s.c)
  tail_words-bytes (suc (suc (suc (suc (suc (suc (suc (suc (suc (suc (suc (suc (suc n))))))))))))) s
        h =
      absurd (omega arith)

  pub tail_halves-bytes : (n : ℕ) (s : Abc) → n ≤ 12 → tail_halves mem k n s ≡ tail_bytes mem k n s
  unfolding tail_halves tail_bytes
  tail_halves-bytes zero s h = abc_eq refl refl refl
  tail_halves-bytes (suc zero) s h = abc_eq refl refl refl
  tail_halves-bytes (suc (suc zero)) s h =
      abc_eq (down_half s.a (mem (k + 0)) (mem (k + 1))) refl refl
  tail_halves-bytes (suc (suc (suc zero))) s h =
      abc_eq (down_half (add32 s.a (shifted mem k 2 16)) (mem (k + 0)) (mem (k + 1))) refl refl
  tail_halves-bytes (suc (suc (suc (suc zero)))) s h = abc_eq (at4 down_halves 0 s.a) refl refl
  tail_halves-bytes (suc (suc (suc (suc (suc zero))))) s h =
      abc_eq (at4 down_halves 0 s.a) refl refl
  tail_halves-bytes (suc (suc (suc (suc (suc (suc zero)))))) s h =
      abc_eq (at4 down_halves 0 s.a) (down_half s.b (mem (k + 4)) (mem (k + 5))) refl
  tail_halves-bytes (suc (suc (suc (suc (suc (suc (suc zero))))))) s h =
      abc_eq (at4 down_halves 0 s.a)
        (down_half (add32 s.b (shifted mem k 6 16)) (mem (k + 4)) (mem (k + 5))) refl
  tail_halves-bytes (suc (suc (suc (suc (suc (suc (suc (suc zero)))))))) s h =
      abc_eq (at4 down_halves 0 s.a) (at4 down_halves 4 s.b) refl
  tail_halves-bytes (suc (suc (suc (suc (suc (suc (suc (suc (suc zero))))))))) s h =
      abc_eq (at4 down_halves 0 s.a) (at4 down_halves 4 s.b) refl
  tail_halves-bytes (suc (suc (suc (suc (suc (suc (suc (suc (suc (suc zero)))))))))) s h =
      abc_eq (at4 down_halves 0 s.a) (at4 down_halves 4 s.b)
        (down_half s.c (mem (k + 8)) (mem (k + 9)))
  tail_halves-bytes (suc (suc (suc (suc (suc (suc (suc (suc (suc (suc (suc zero))))))))))) s h =
      abc_eq (at4 down_halves 0 s.a) (at4 down_halves 4 s.b)
        (down_half (add32 s.c (shifted mem k 10 16)) (mem (k + 8)) (mem (k + 9)))
  tail_halves-bytes (suc (suc (suc (suc (suc (suc (suc (suc (suc (suc (suc (suc zero)))))))))))) s
        h =
      abc_eq (at4 down_halves 0 s.a) (at4 down_halves 4 s.b) (at4 down_halves 8 s.c)
  tail_halves-bytes (suc (suc (suc (suc (suc (suc (suc (suc (suc (suc (suc (suc (suc n)))))))))))))
        s h =
      absurd (omega arith)
