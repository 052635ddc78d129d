-- ===== src/Memory/Device.antt =====
-- A character device that works as Linux documents it: a seek goes where it is told, and a transfer
-- moves at most 0x7ffff000 bytes at the current position and steps over them.
use Prim.Native.Nat.{min}
use reco_nic.Prelude.{ℕ, ◌+◌, ◌≡◌, List, [], ◌∷◌, none, some, take, length}
use reco_nic.Machine.{Env, FileOp, seek, file_read, file_write}
use reco_nic.Memory.Content.{store, load}

-- The position and the content after a history of calls.
pub record File : Type 0 where
  pub position : ℕ
  pub content : ℕ → ℕ

abbrev pub step : FileOp → File → File
step (seek o none) f = f
step (seek o (some at)) f = record f { position = at }
step (file_read n none) f = f
step (file_read n (some bs)) f = record f { position = f.position + length bs }
step (file_write bs none) f = f
step (file_write bs (some n)) f = record {
  position = f.position + n;
  content = store f.content f.position (take n bs);
}

abbrev pub replay : (ℕ → ℕ) → List FileOp → File
replay initial [] = record { position = 0; content = initial }
replay initial (op ∷ t) = step op (replay initial t)

abbrev pub transfer_limit : ℕ
transfer_limit = 0x7ffff000

-- The card's memory held `initial` before the first call.
pub record IsRegular (env : Env) (initial : ℕ → ℕ) : Type 0 where
  pub seeks : (t : List FileOp) (o : ℕ) → env.seek t o ≡ some o
  pub writes :
      (t : List FileOp) (bs : List ℕ) → env.file_write t bs ≡ some (min (length bs) transfer_limit)
  pub reads :
      (t : List FileOp) (n : ℕ)
      → env.file_read t n
        ≡ some (load (replay initial t).content (replay initial t).position (min n transfer_limit))
