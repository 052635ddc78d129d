-- ===== src/Machine/Platform.antt =====
-- What the library calls and does not implement.
use reco_nic.Prelude.{ℕ, Bool, Option, List}
use reco_nic.Machine.Heap.{Access, FileOp}

-- `hardware t a`: the word that the card answers to a read of address `a` after the accesses `t`.
-- `malloc_fails n`: whether the call of `malloc` that would give address `n` returns NULL.
-- `page_size`: what `getpagesize` returns. `pagemap_seek_fails p`, `pagemap p`: whether `fseek` to
-- the entry of page `p` in /proc/self/pagemap fails, and the seven bytes that `fread` gives there.
-- `open_resource`: the descriptor that `open` gives for the PCIe resource. `map_resource`: where
-- `mmap` puts the registers. `map_hugepages n`: where it puts `n` bytes of huge pages, which is
-- MAP_FAILED, all ones, where it fails. `mlock_fails a n`: whether `mlock` refuses.
-- `seek`, `file_read`, `file_write`: the system calls on the card's character device.
-- `debug_env`: whether the environment has DEBUG=1.
pub record Env : Type 0 where
  pub hardware : List Access → ℕ → ℕ
  pub malloc_fails : ℕ → Bool
  pub page_size : ℕ
  pub pagemap_seek_fails : ℕ → Bool
  pub pagemap : ℕ → Option ℕ
  pub open_resource : Option ℕ
  pub map_resource : Option ℕ
  pub map_hugepages : ℕ → ℕ
  pub mlock_fails : ℕ → ℕ → Bool
  pub seek : List FileOp → ℕ → Option ℕ
  pub file_read : List FileOp → ℕ → Option (List ℕ)
  pub file_write : List FileOp → List ℕ → Option ℕ
  pub debug_env : Bool
