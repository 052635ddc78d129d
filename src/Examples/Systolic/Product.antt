-- ===== src/Examples/Systolic/Product.antt =====
-- `software_mmult` against the product of two matrices.
use reco_nic.Prelude.{
  ℕ, zero, suc, ◌+◌, ◌*◌, ◌%◌, ◌^◌, ◌<◌, ◌≤◌, ◌≡◌, ◌≢◌, refl, ap, ◌∙◌, List, ◌⊎◌, inl, inr,
  Bool-cases, arith, ◌==◌, get_or, set, length, u32, length-set, get_or-set_self, get_or-set_ne,
}
use reco_nic.Examples.Systolic.{mmult_k, mmult_j, mmult_i, software_mmult}

-- The entry at row `i` and column `j` of a matrix of 16 columns.
abbrev pub entry : List ℕ → (i j : ℕ) → ℕ
entry a i j = get_or a (i * 16 + j) 0

module _ (a b : List ℕ) where
  -- The sum of `a i k * b k j` over the `n` values of `k` from `k` on.
  abbrev pub dot : (n i j k : ℕ) → ℕ
  dot zero i j k = 0
  dot (suc n) i j k = entry a i k * entry b k j + dot n i j (k + 1)

  length-mmult_k : (r i j k : ℕ) (out : List ℕ) → length (mmult_k r i j k a b out) ≡ length out
  unfolding mmult_k
  length-mmult_k zero i j k out = refl
  length-mmult_k (suc r) i j k out = length-mmult_k r i j (k + 1) _ ∙ length-set out _ _

  mmult_k_other :
      (r i j k p : ℕ) (out : List ℕ)
      → i * 16 + j ≢ p
      → get_or (mmult_k r i j k a b out) p 0 ≡ get_or out p 0
  unfolding mmult_k
  mmult_k_other zero i j k p out ne = refl
  mmult_k_other (suc r) i j k p out ne =
      mmult_k_other r i j (k + 1) p _ ne ∙ get_or-set_ne out _ p _ 0 ne

  entry-mmult_k :
      (r i j k : ℕ) (out : List ℕ)
      → i * 16 + j < length out
      → entry (mmult_k r i j k a b out) i j % 2 ^ 32 ≡ (entry out i j + dot r i j k) % 2 ^ 32
  unfolding mmult_k
  entry-mmult_k zero i j k out inside = ap (λ (x : ℕ). x % 2 ^ 32) (omega arith)
  entry-mmult_k (suc r) i j k out inside =
      let v = u32 (entry out i j + entry a i k * entry b k j) in
      let next = set out (i * 16 + j) v in
      let stored = get_or-set_self out (i * 16 + j) v 0 inside in
      let ih = entry-mmult_k r i j (k + 1) next (omega (arith, length-set out (i * 16 + j) v)) in
      omega (arith, ih, stored)

  length-mmult_j : (r i j : ℕ) (out : List ℕ) → length (mmult_j r i j a b out) ≡ length out
  unfolding mmult_j
  length-mmult_j zero i j out = refl
  length-mmult_j (suc r) i j out = length-mmult_j r i (j + 1) _ ∙ length-mmult_k 16 i j 0 out

  mmult_j_other :
      (r i j p : ℕ) (out : List ℕ)
      → (p < i * 16 + j) ⊎ (i * 16 + j + r ≤ p)
      → get_or (mmult_j r i j a b out) p 0 ≡ get_or out p 0
  unfolding mmult_j
  mmult_j_other zero i j p out away = refl
  mmult_j_other (suc r) i j p out away =
      mmult_j_other r i (j + 1) p (mmult_k 16 i j 0 a b out) (ground arith)
      ∙ mmult_k_other 16 i j 0 p out (λ e. ground arith)

  entry-mmult_j :
      (r i j q : ℕ) (out : List ℕ)
      → j ≤ q
      → q < j + r
      → i * 16 + q < length out
      → entry (mmult_j r i j a b out) i q % 2 ^ 32 ≡ (entry out i q + dot 16 i q 0) % 2 ^ 32
  unfolding mmult_j
  entry-mmult_j zero i j q out from to inside = absurd (omega arith)
  entry-mmult_j (suc r) i j q out from to inside =
      let next = mmult_k 16 i j 0 a b out in
      elim (Bool-cases (j == q)) [
        | inl here ↦
            let e : j ≡ q = ground arith in
            ap (λ (x : ℕ). x % 2 ^ 32)
              (mmult_j_other r i (j + 1) (i * 16 + q) next (inl (omega arith)))
            ∙ ap (λ (x : ℕ). entry (mmult_k 16 i x 0 a b out) i q % 2 ^ 32) e
            ∙ entry-mmult_k 16 i q 0 out inside
        | inr later ↦
            let ne : j ≢ q = ground arith in
            entry-mmult_j r i (j + 1) q next (omega arith) (omega arith)
              (omega (arith, length-mmult_k 16 i j 0 out))
            ∙ ap (λ (x : ℕ). (x + dot 16 i q 0) % 2 ^ 32)
                (mmult_k_other 16 i j 0 (i * 16 + q) out (λ e. ne (omega arith)))
      ]

  mmult_i_other :
      (r i p : ℕ) (out : List ℕ) → p < i * 16 → get_or (mmult_i r i a b out) p 0 ≡ get_or out p 0
  unfolding mmult_i
  mmult_i_other zero i p out away = refl
  mmult_i_other (suc r) i p out away =
      mmult_i_other r (i + 1) p (mmult_j 16 i 0 a b out) (omega arith)
      ∙ mmult_j_other 16 i 0 p out (inl (omega arith))

  entry-mmult_i :
      (r i p q : ℕ) (out : List ℕ)
      → i ≤ p
      → p < i + r
      → q < 16
      → p * 16 + q < length out
      → entry (mmult_i r i a b out) p q % 2 ^ 32 ≡ (entry out p q + dot 16 p q 0) % 2 ^ 32
  unfolding mmult_i
  entry-mmult_i zero i p q out from to col inside = absurd (omega arith)
  entry-mmult_i (suc r) i p q out from to col inside =
      let next = mmult_j 16 i 0 a b out in
      elim (Bool-cases (i == p)) [
        | inl here ↦
            let e : i ≡ p = ground arith in
            ap (λ (x : ℕ). x % 2 ^ 32) (mmult_i_other r (i + 1) (p * 16 + q) next (omega arith))
            ∙ ap (λ (x : ℕ). entry (mmult_j 16 x 0 a b out) p q % 2 ^ 32) e
            ∙ entry-mmult_j 16 p 0 q out (omega arith) (omega arith) inside
        | inr later ↦
            let ne : i ≢ p = ground arith in
            entry-mmult_i r (i + 1) p q next (ground arith) (omega arith) col
              (omega (arith, length-mmult_j 16 i 0 out))
            ∙ ap (λ (x : ℕ). (x + dot 16 p q 0) % 2 ^ 32)
                (mmult_j_other 16 i 0 (p * 16 + q) out (ground arith))
      ]

  -- The three loops of `software_mmult` add the product of the matrices to `out`, entry by entry,
  -- up to the wrap of a 32-bit `int`.
  pub software_mmult-product :
      (i j : ℕ) (out : List ℕ)
      → i < 16
      → j < 16
      → length out ≡ 256
      → entry (software_mmult a b out) i j % 2 ^ 32 ≡ (entry out i j + dot 16 i j 0) % 2 ^ 32
  unfolding software_mmult
  software_mmult-product i j out row col size =
      entry-mmult_i 16 0 i j out (omega arith) row col (omega arith)
