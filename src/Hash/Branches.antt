-- ===== src/Hash/Branches.antt =====
-- The three branches of `jenkins_hash` of KV-Store/app/Hash/Hash.c side by side.
use elastic_actor.Prelude.{
  ℕ, zero, suc, ◌+◌, ◌-◌, ◌*◌, ◌%◌, ◌^◌, ◌<◌, ◌≤◌, ◌≡◌, ◌∙◌, refl, ap, sym, inl, inr, arith,
  Bool-cases, ltb, leb, ◌==◌, ltb→lt, leb→le, u32,
}
use elastic_actor.Hash.{
  Abc, Memory, mix, blocks, ending, branch, start_of, block_words, block_halves, block_bytes,
  tail_words, tail_halves, tail_bytes, jenkins_hash, from_case, add_a, add_b, add_c,
}
use elastic_actor.Hash.Blocks.{
  IsBytes, block_words-bytes, block_halves-bytes, tail_words-bytes, tail_halves-bytes,
}

-- Two loops at two keys that go side by side, as long as a relation of the pointers and the length
-- that is left makes them do the same.
module _ (Along : ℕ → ℕ → ℕ → Type 0) (block block' : ℕ → Abc → Abc)
    (tail tail' : ℕ → ℕ → Abc → Abc)
    (block_same : (k k' n : ℕ) (s : Abc) → Along k k' n → 12 < n → block k s ≡ block' k' s)
    (block_goes_on : (k k' n : ℕ) → Along k k' n → 12 < n → Along (k + 12) (k' + 12) (n - 12))
    (tail_same : (k k' n : ℕ) (s : Abc) → Along k k' n → n ≤ 12 → tail k n s ≡ tail' k' n s) where
  ending-same :
      (k k' n : ℕ) (s : Abc)
      → Along k k' n
      → n ≤ 12
      → ending tail (k, n, s) ≡ ending tail' (k', n, s)
  unfolding ending
  ending-same k k' n s along h = rw (tail_same k k' n s along h) refl

  blocks-same :
      (fuel k k' n : ℕ) (s : Abc)
      → n ≤ fuel
      → Along k k' n
      → ending tail (blocks block fuel k n s) ≡ ending tail' (blocks block' fuel k' n s)
  unfolding blocks
  blocks-same zero k k' n s enough along = ending-same k k' n s along (omega arith)
  blocks-same (suc fuel) k k' n s enough along = elim (Bool-cases (ltb 12 n)) [
    | inl more ↦
        let h : 12 < n = ltb→lt 12 n more in
        rw (more, block_same k k' n s along h)
          (blocks-same fuel (k + 12) (k' + 12) (n - 12) (mix (block' k' s)) (omega arith)
            (block_goes_on k k' n along h))
    | inr last ↦ rw last (ending-same k k' n s along (ground arith))
  ]

  branch-same :
      (k k' n : ℕ) (s : Abc) → Along k k' n → branch block tail k n s ≡ branch block' tail' k' n s
  unfolding branch
  branch-same k k' n s along = blocks-same n k k' n s (omega arith) along

-- The same bytes behind two pointers.
abbrev pub SameKey : Memory → Memory → ℕ → ℕ → ℕ → Type 0
SameKey mem mem' key key' length = (i : ℕ) → i < length → mem (key + i) ≡ mem' (key' + i)

module _ (mem : Memory) (bytes : IsBytes mem) where
  abbrev by_bytes : ℕ → ℕ → ℕ
  by_bytes key length = branch (block_bytes mem) (tail_bytes mem) key length (start_of length)

  -- Whatever its alignment.
  jenkins_hash-bytes : (key length : ℕ) → jenkins_hash mem key length ≡ by_bytes key length
  unfolding jenkins_hash
  jenkins_hash-bytes key length = elim (Bool-cases (key % 4 == 0)) [
    | inl aligned ↦ rw aligned (
        branch-same (λ k k' n. k ≡ k') (block_words mem) (block_bytes mem) (tail_words mem)
          (tail_bytes mem) (λ k k' n s e h. rw (← e) (block_words-bytes mem bytes k s))
          (λ k k' n e h. ap (λ i. i + 12) e)
          (λ k k' n s e h. rw (← e) (tail_words-bytes mem bytes k n s h)) key key length
          (start_of length) refl)
    | inr odd ↦ elim (Bool-cases (key % 2 == 0)) [
      | inl even ↦
          rw (odd, even)
            (branch-same (λ k k' n. k ≡ k') (block_halves mem) (block_bytes mem) (tail_halves mem)
              (tail_bytes mem) (λ k k' n s e h. rw (← e) (block_halves-bytes mem bytes k s))
              (λ k k' n e h. ap (λ i. i + 12) e)
              (λ k k' n s e h. rw (← e) (tail_halves-bytes mem bytes k n s h)) key key length
              (start_of length) refl)
      | inr neither ↦ rw (odd, neither) refl
    ]
  ]

from_case-same :
    (n i : ℕ) (f f' : Abc → Abc)
    → (i ≤ n → (s : Abc) → f s ≡ f' s)
    → (s s' : Abc) → s ≡ s'
    → from_case n i f s ≡ from_case n i f' s'
from_case-same n i f f' same s s' e = elim (Bool-cases (leb i n)) [
  | inl there ↦ rw (there, e) (same (leb→le i n there) s')
  | inr not_there ↦ rw (not_there, e) refl
]

module _ (mem mem' : Memory) (k k' n : ℕ) (same : SameKey mem mem' k k' n) where
  block_bytes-same : 12 < n → (s : Abc) → block_bytes mem k s ≡ block_bytes mem' k' s
  unfolding block_bytes
  block_bytes-same h s =
      rw
        (
          same 0 (omega arith),
          same 1 (omega arith),
          same 2 (omega arith),
          same 3 (omega arith),
          same 4 (omega arith),
          same 5 (omega arith),
          same 6 (omega arith),
          same 7 (omega arith),
          same 8 (omega arith),
          same 9 (omega arith),
          same 10 (omega arith),
          same 11 (omega arith),
        )
        refl

  -- A case that reads the byte at `i`.
  reads :
      (i : ℕ) (g : ℕ → Abc → Abc) (s s' : Abc)
      → s ≡ s'
      → from_case n (i + 1) (g (mem (k + i))) s ≡ from_case n (i + 1) (g (mem' (k' + i))) s'
  reads i g s s' e =
      from_case-same n (i + 1) (g (mem (k + i))) (g (mem' (k' + i)))
        (λ h t. ap (λ b. g b t) (same i (omega arith))) s s' e

  tail_bytes-same : (s : Abc) → tail_bytes mem k n s ≡ tail_bytes mem' k' n s
  unfolding tail_bytes
  tail_bytes-same s = reads 0 add_a _ _ (
      reads 1 (λ b. add_a (u32 (b * 2 ^ 8))) _ _
        (reads 2 (λ b. add_a (u32 (b * 2 ^ 16))) _ _
          (reads 3 (λ b. add_a (u32 (b * 2 ^ 24))) _ _
            (reads 4 add_b _ _ (
              reads 5 (λ b. add_b (u32 (b * 2 ^ 8))) _ _
                (reads 6 (λ b. add_b (u32 (b * 2 ^ 16))) _ _
                  (reads 7 (λ b. add_b (u32 (b * 2 ^ 24))) _ _
                    (reads 8 add_c _ _ (
                      reads 9 (λ b. add_c (u32 (b * 2 ^ 8))) _ _
                        (reads 10 (λ b. add_c (u32 (b * 2 ^ 16))) _ _
                          (reads 11 (λ b. add_c (u32 (b * 2 ^ 24))) s s refl)))))))))))

SameKey-block :
    (mem mem' : Memory) (k k' n : ℕ)
    → SameKey mem mem' k k' n
    → 12 < n
    → SameKey mem mem' (k + 12) (k' + 12) (n - 12)
SameKey-block mem mem' k k' n same h i less =
    let e : k + 12 + i ≡ k + (12 + i) = omega arith in
    let e' : k' + 12 + i ≡ k' + (12 + i) = omega arith in
    ap mem e ∙ same (12 + i) (omega arith) ∙ sym (ap mem' e')

-- The hash of a key depends on its bytes alone: two copies of a key, at addresses of any alignment
-- and with anything behind them, in memories of bytes, have the same hash.
pub jenkins_hash-same :
    (mem mem' : Memory) (key key' length : ℕ)
    → IsBytes mem
    → IsBytes mem'
    → SameKey mem mem' key key' length
    → jenkins_hash mem key length ≡ jenkins_hash mem' key' length
jenkins_hash-same mem mem' key key' length bytes bytes' same =
    jenkins_hash-bytes mem bytes key length
    ∙ branch-same (SameKey mem mem') (block_bytes mem) (block_bytes mem') (tail_bytes mem)
        (tail_bytes mem') (λ k k' n s along h. block_bytes-same mem mem' k k' n along h s)
        (SameKey-block mem mem') (λ k k' n s along h. tail_bytes-same mem mem' k k' n along s) key
        key' length (start_of length) same
    ∙ sym (jenkins_hash-bytes mem' bytes' key' length)
