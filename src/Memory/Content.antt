-- ===== src/Memory/Content.antt =====
-- Bytes in a memory.
use reco_nic.Prelude.{
  ℕ, zero, suc, ◌+◌, ◌≤◌, ◌<◌, ◌≡◌, refl, ap, ap₂, ◌∙◌, List, [], ◌∷◌, ◌++◌, ◌⊎◌, inl, arith,
  length,
}
use reco_nic.Machine.{update}

-- The memory with the bytes `bs` from address `p` on.
unfoldable pub store : (ℕ → ℕ) → ℕ → List ℕ → ℕ → ℕ
store c p [] = c
store c p (b ∷ bs) = store (update c p b) (p + 1) bs

-- The `n` bytes from `p` on.
unfoldable pub load : (ℕ → ℕ) → ℕ → ℕ → List ℕ
load c p zero = []
load c p (suc n) = c p ∷ load c (p + 1) n

pub store-append :
    (c : ℕ → ℕ) (p : ℕ) (xs ys : List ℕ)
    → store c p (xs ++ ys) ≡ store (store c p xs) (p + length xs) ys
unfolding store
store-append c p [] ys = ap (λ (q : ℕ). store c q ys) (omega arith)
store-append c p (x ∷ xs) ys =
    store-append (update c p x) (p + 1) xs ys
    ∙ ap (λ (q : ℕ). store (store (update c p x) (p + 1) xs) q ys) (omega arith)

pub store_outside :
    (c : ℕ → ℕ) (p : ℕ) (bs : List ℕ) (a : ℕ) → (a < p) ⊎ (p + length bs ≤ a) → store c p bs a ≡ c a
unfolding store
store_outside c p [] a out = refl
store_outside c p (b ∷ bs) a out =
    store_outside (update c p b) (p + 1) bs a (ground arith) ∙ ground arith

pub load-store : (c : ℕ → ℕ) (p : ℕ) (bs : List ℕ) → load (store c p bs) p (length bs) ≡ bs
unfolding store load
load-store c p [] = refl
load-store c p (b ∷ bs) =
    ap₂ ◌∷◌ (store_outside (update c p b) (p + 1) bs p (inl (omega arith)) ∙ ground arith)
      (load-store (update c p b) (p + 1) bs)

pub length-load : (c : ℕ → ℕ) (p n : ℕ) → length (load c p n) ≡ n
unfolding load
length-load c p zero = refl
length-load c p (suc n) = ap suc (length-load c (p + 1) n)

pub load-append : (c : ℕ → ℕ) (p n k : ℕ) → load c p (n + k) ≡ load c p n ++ load c (p + n) k
unfolding load
load-append c p zero k = ground arith
load-append c p (suc n) k =
    let e : suc n + k ≡ suc (n + k) = omega arith in
    rw (e, load)
      (ap (λ (t : List ℕ). c p ∷ t)
        (load-append c (p + 1) n k ∙ ap (λ (q : ℕ). load c (p + 1) n ++ load c q k) (omega arith)))
