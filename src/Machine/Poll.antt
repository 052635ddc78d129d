-- ===== src/Machine/Poll.antt =====
-- Reading one register again and again. What the card answers may change with each read.
use reco_nic.Prelude.{
  ℕ, zero, suc, ◌<◌, ◌≡◌, ◌≢◌, refl, ◌⊎◌, inl, inr, Bool-cases, arith, ◌==◌, List, ◌∷◌, u32,
}
use reco_nic.Machine.Heap.{Access, read}
use reco_nic.Machine.Trace.{last_write}

module _ (hardware : List Access → ℕ → ℕ) (a : ℕ) where
  -- The trace after `n` reads.
  abbrev pub after_reads : ℕ → List Access → List Access
  after_reads zero t = t
  after_reads (suc n) t = after_reads n (read a (u32 (hardware t a)) ∷ t)

  -- What the read after `n` reads gives.
  abbrev pub nth_read : ℕ → List Access → ℕ
  nth_read n t = u32 (hardware (after_reads n t) a)

  pub last_write-after_reads :
      (n : ℕ) (t : List Access) (b : ℕ) → last_write (after_reads n t) b ≡ last_write t b
  last_write-after_reads zero t b = refl
  last_write-after_reads (suc n) t b = last_write-after_reads n (read a (u32 (hardware t a)) ∷ t) b

  -- Whether one of the next `k` reads differs from `v`, and which is the first.
  pub first_change :
      (v k : ℕ) (t : List Access)
      → ((i : ℕ) → i < k → nth_read i t ≡ v)
        ⊎ ((n : ℕ) × (n < k) × ((i : ℕ) → i < n → nth_read i t ≡ v) × (nth_read n t ≢ v))
  first_change v zero t = inl (λ i p. absurd (omega arith))
  first_change v (suc k) t = elim (first_change v k t) [
    | inr (n, lt, same, ne) ↦ inr (n, omega arith, same, ne)
    | inl same ↦ elim (Bool-cases (nth_read k t == v)) [
      | inl eq ↦ inl (λ i p. elim (Bool-cases (i == k)) [
        | inl last ↦ ground arith
        | inr before ↦ same i (ground arith)
      ])
      | inr ne ↦ inr (k, omega arith, same, ground arith)
    ]
  ]
