-- ===== src/Machine/Trace.antt =====
-- What a trace of register accesses says of the registers.
use reco_nic.Prelude.{
  ℕ, Option, none, some, List, [], ◌∷◌, ◌++◌, ◌≡◌, refl, ◌≤◌, ◌<◌, ◌⊎◌, arith, ◌==◌, if◌then◌else◌,
}
use reco_nic.Machine.Heap.{Access, read, write}

-- The word that was last written to an address.
abbrev pub last_write : List Access → ℕ → Option ℕ
last_write [] a = none
last_write (read b v ∷ t) a = last_write t a
last_write (write b v ∷ t) a = if b == a then some v else last_write t a

-- The accesses to one address, the last one first.
abbrev pub accesses_at : ℕ → List Access → List Access
accesses_at a [] = []
accesses_at a (read b v ∷ t) = if b == a then read b v ∷ accesses_at a t else accesses_at a t
accesses_at a (write b v ∷ t) = if b == a then write b v ∷ accesses_at a t else accesses_at a t

-- Every write of the trace goes to an address in [lo, hi).
abbrev pub WritesWithin : ℕ → ℕ → List Access → Type 0
WritesWithin lo hi [] = Unit
WritesWithin lo hi (read b v ∷ t) = WritesWithin lo hi t
WritesWithin lo hi (write b v ∷ t) = (lo ≤ b) × (b < hi) × WritesWithin lo hi t

-- Registers outside the range keep what was last written to them.
pub last_write-append_outside :
    (lo hi a : ℕ) (new old : List Access)
    → WritesWithin lo hi new
    → (a < lo) ⊎ (hi ≤ a)
    → last_write (new ++ old) a ≡ last_write old a
last_write-append_outside lo hi a [] old w out = refl
last_write-append_outside lo hi a (read b v ∷ new) old w out =
    last_write-append_outside lo hi a new old w out
last_write-append_outside lo hi a (write b v ∷ new) old w out =
    ground (arith, last_write-append_outside lo hi a new old w.2 out)
