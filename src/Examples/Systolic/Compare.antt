-- ===== src/Examples/Systolic/Compare.antt =====
-- examples/systolic_mm/systolic_mm.c: the comparison of the card's result with the product.
use reco_nic.Prelude.{
  ℕ, zero, suc, ◌+◌, ◌*◌, ◌%◌, ◌^◌, ◌<◌, ◌≤◌, ◌≡◌, refl, sym, ap, ◌∙◌, List, [], ◌∷◌, true, inl,
  inr, Bool-cases, arith, ==-refl, ◌==◌, get_or, set, replicate, length,
}
use reco_nic.Examples.Systolic.{mmult_k, mmult_j, mmult_i, software_mmult}
use reco_nic.Examples.Systolic.Product.{dot, entry, software_mmult-product}
use reco_nic.Examples.Systolic.Run.{int_at, all_match}

module _ (hw sw : List ℕ) where
  -- From the `i`-th int on, `r` ints are the same.
  abbrev pub Same : (r i : ℕ) → Type 0
  Same r i = (p : ℕ) → i ≤ p → p < i + r → int_at hw p ≡ get_or sw p 0

  pub all_match-Same : (r i : ℕ) → all_match r i hw sw ≡ true → Same r i
  unfolding all_match
  all_match-Same zero i h p from to = absurd (omega arith)
  all_match-Same (suc r) i h p from to = elim (Bool-cases (i == p)) [
    | inl here ↦
        let e : i ≡ p = ground arith in
        ap (λ (x : ℕ). int_at hw x) (sym e) ∙ ground arith ∙ ap (λ (x : ℕ). get_or sw x 0) e
    | inr later ↦ all_match-Same r (i + 1) (ground arith) p (ground arith) (omega arith)
  ]

  pub Same-all_match : (r i : ℕ) → Same r i → all_match r i hw sw ≡ true
  unfolding all_match
  Same-all_match zero i h = refl
  Same-all_match (suc r) i h =
      let rest = Same-all_match r (i + 1) (λ p from to. h p (omega arith) (omega arith)) in
      rw (h i (omega arith) (omega arith)) (rw (==-refl (get_or sw i 0)) rest)

abbrev pub zeros : ℕ → List ℕ
zeros n = replicate n 0

get_or-zeros : (n p : ℕ) → get_or (zeros n) p 0 ≡ 0
get_or-zeros zero p = refl
get_or-zeros (suc n) zero = refl
get_or-zeros (suc n) (suc p) = get_or-zeros n p

length-zeros : (n : ℕ) → length (zeros n) ≡ n
length-zeros zero = refl
length-zeros (suc n) = ap suc (length-zeros n)

-- Every entry fits an `int`.
abbrev AreInts : List ℕ → Type 0
AreInts xs = (p : ℕ) → get_or xs p 0 < 2 ^ 32

set-AreInts : (xs : List ℕ) (i v : ℕ) → AreInts xs → v < 2 ^ 32 → AreInts (set xs i v)
set-AreInts [] i v h small p = h p
set-AreInts (x ∷ xs) zero v h small zero = small
set-AreInts (x ∷ xs) zero v h small (suc p) = h (suc p)
set-AreInts (x ∷ xs) (suc i) v h small zero = h 0
set-AreInts (x ∷ xs) (suc i) v h small (suc p) = set-AreInts xs i v (λ q. h (suc q)) small p

module _ (a b : List ℕ) where
  mmult_k-AreInts : (r i j k : ℕ) (out : List ℕ) → AreInts out → AreInts (mmult_k r i j k a b out)
  unfolding mmult_k
  mmult_k-AreInts zero i j k out h = h
  mmult_k-AreInts (suc r) i j k out h =
      mmult_k-AreInts r i j (k + 1) _ (set-AreInts out _ _ h (omega arith))

  mmult_j-AreInts : (r i j : ℕ) (out : List ℕ) → AreInts out → AreInts (mmult_j r i j a b out)
  unfolding mmult_j
  mmult_j-AreInts zero i j out h = h
  mmult_j-AreInts (suc r) i j out h = mmult_j-AreInts r i (j + 1) _ (mmult_k-AreInts 16 i j 0 out h)

  mmult_i-AreInts : (r i : ℕ) (out : List ℕ) → AreInts out → AreInts (mmult_i r i a b out)
  unfolding mmult_i
  mmult_i-AreInts zero i out h = h
  mmult_i-AreInts (suc r) i out h = mmult_i-AreInts r (i + 1) _ (mmult_j-AreInts 16 i 0 out h)

  mmult-AreInts : (out : List ℕ) → AreInts out → AreInts (software_mmult a b out)
  unfolding software_mmult
  mmult-AreInts out h = mmult_i-AreInts 16 0 out h

  -- From an output of zeros, the entries are those of the product.
  pub product_entry :
      (i j : ℕ)
      → i < 16
      → j < 16
      → entry (software_mmult a b (zeros 256)) i j ≡ dot a b 16 i j 0 % 2 ^ 32
  product_entry i j row col = omega (
    arith,
    software_mmult-product a b i j (zeros 256) row col (length-zeros 256),
    get_or-zeros 256 (i * 16 + j),
    mmult-AreInts (zeros 256) (λ p. omega (arith, get_or-zeros 256 p)) (i * 16 + j),
  )
