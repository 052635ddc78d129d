-- ===== src/Examples/Dma.antt =====
-- examples/dma_test: the transfers of dma_utils.c, which are not those of lib/memory_api.c, and the
-- benchmark of dma_test.c. Times and the throughput are measured in floats and not modelled.
pub mod Laws
pub mod Small
pub mod Rounds
use reco_nic.Prelude.{
  ℕ, zero, suc, ◌+◌, ◌*◌, ◌/◌, List, [], ◌∷◌, ◌++◌, Option, none, some, Bool, true, false, not, ltb,
  ◌==◌, ◌&&◌, if◌then◌else◌, take, drop, length, bit_and, u64,
}
use reco_nic.Machine.{Machine, Env, Cmd, FileOp, ret, out_of_fuel, and_then, pure, ◌>>=◌}
use reco_nic.Memory.{rw_max_size, chunk, seek_to, read_fd, write_fd}

module _ (env : Env) where
  -- A transfer at offset 0 stays where the descriptor is.
  abbrev pub seek_unless_zero : ℕ → Cmd Bool
  seek_unless_zero offset = if offset == 0 then pure true else seek_to env offset

  -- `none` is -EIO, `some` the count.
  unfoldable pub write_loop : (fuel size count offset : ℕ) (buf : List ℕ) → Cmd (Option ℕ)
  write_loop zero size count offset buf = λ m. out_of_fuel m
  write_loop (suc fuel) size count offset buf = do
    let bytes = chunk size count
    let rest = write_loop fuel size (count + bytes) (u64 (offset + bytes)) (drop bytes buf)
    found ← seek_unless_zero offset
    if not found then pure none else do
      rc ← write_fd env (take bytes buf)
      written ← (λ m. elim rc [ none ↦ ret false m | some n ↦ ret (n == bytes) m ])
      if not written
          then pure none
          else if ltb (count + bytes) size
          then rest
          else if count + bytes == size
          then pure (some (count + bytes))
          else pure none

  -- The same for reading; `buf` is what the buffer holds so far.
  unfoldable pub read_loop : (fuel size count offset : ℕ) (buf : List ℕ) → Cmd (Option ℕ × List ℕ)
  read_loop zero size count offset buf = λ m. out_of_fuel m
  read_loop (suc fuel) size count offset buf = do
    let bytes = chunk size count
    let rest =
        λ (got : List ℕ). read_loop fuel size (count + bytes) (u64 (offset + bytes)) (buf ++ got)
    found ← seek_unless_zero offset
    if not found then pure (none, buf) else do
      rc ← read_fd env bytes
      got ← (λ m. elim rc [ none ↦ ret [] m | some b ↦ ret b m ])
      complete ← (λ m. elim rc [ none ↦ ret false m | some b ↦ ret (length b == bytes) m ])
      if not complete
          then pure (none, buf ++ got)
          else if ltb (count + bytes) size
          then rest got
          else if count + bytes == size
          then pure (some (count + bytes), buf ++ got)
          else pure (none, buf ++ got)

  unfoldable pub write_from_buffer : (buffer : List ℕ) (size base : ℕ) → Cmd (Option ℕ)
  write_from_buffer buffer size base = write_loop (size / rw_max_size + 1) size 0 base buffer

  unfoldable pub read_to_buffer : (size base : ℕ) → Cmd (Option ℕ × List ℕ)
  read_to_buffer size base = read_loop (size / rw_max_size + 1) size 0 base []

-- What `test_dma` returns: 0, -EINVAL, -ENOMEM or -EIO.
pub data Result : Type 0 where
  success invalid out_of_memory io_error : Result

-- The descriptors of a run: the card's is that of the machine, the files' have their own history.
-- `none` is a file that is not named, `some none` one that `open` refuses.
pub record Benchmark : Type 0 where
  pub device : Option Env
  pub infile : Option (Option Env)
  pub outfile : Option (Option Env)
  pub posix_memalign_fails : Bool
  pub allocated : List ℕ
  pub addr : ℕ
  pub size : ℕ
  pub count : ℕ
  pub read_scenario : Bool

-- A command on another descriptor, whose history is `h`. It gives the new history, too.
abbrev pub on_file : {A : Type 0} → List FileOp → Cmd A → Cmd (A × List FileOp)
on_file h c m =
    and_then (c (record m { file = h })) (λ a m'. ret (a, m'.file) (record m' { file = m.file }))

-- The rounds of the benchmark from the `i`-th on; `out` is the history of the output file.
unfoldable pub bench_rounds :
    (fpga : Env) (outfile : Option Env) (read_scenario : Bool) (addr size rounds i : ℕ)
    → (buffer : List ℕ) (out : List FileOp) → Cmd Result
bench_rounds fpga outfile r addr size zero i buffer out = pure success
bench_rounds fpga outfile true addr size (suc n) i buffer out = do
  let next =
      λ (b : List ℕ) (h : List FileOp). bench_rounds fpga outfile true addr size n (i + 1) b h
  got ← read_to_buffer fpga size addr
  let full = got.1 ++ drop (length got.1) buffer
  λ m. elim got.0 [
    | none ↦ pure io_error m
    | some rc ↦ elim outfile [
      | none ↦ next full out m
      | some o ↦
          (do
            saved ← on_file out (write_from_buffer o full size (u64 (i * size)))
            λ m'. elim saved.0 [ none ↦ pure io_error m' | some rc ↦ next full saved.1 m' ])
            m
    ]
  ]
bench_rounds fpga outfile false addr size (suc n) i buffer out = do
  let next = bench_rounds fpga outfile false addr size n (i + 1) buffer out
  rc ← write_from_buffer fpga buffer size addr
  λ m. elim rc [ none ↦ pure io_error m | some n ↦ next m ]

-- The input file fills the buffer before a run that writes.
unfoldable pub load_infile : (size : ℕ) → Option Env → (buffer : List ℕ) → Cmd (Option (List ℕ))
load_infile size none buffer = pure (some buffer)
load_infile size (some f) buffer = do
  got ← on_file [] (read_to_buffer f size 0)
  λ m. elim got.0.0 [
    | none ↦ pure none m
    | some rc ↦ pure (some (got.0.1 ++ drop (length got.0.1) buffer)) m
  ]

-- The run with its files open. `b.allocated` is what the memory from `allocated + offset` on holds
-- at first.
unfoldable pub bench_run : Benchmark → (fpga : Env) (infile outfile : Option Env) → Cmd Result
unfolding bench_rounds load_infile
bench_run b fpga infile outfile = if b.posix_memalign_fails then pure out_of_memory else do
  loaded ← load_infile b.size (if b.read_scenario then none else infile) b.allocated
  λ m. elim loaded [
    | none ↦ pure io_error m
    | some buffer ↦ bench_rounds fpga outfile b.read_scenario b.addr b.size b.count 0 buffer [] m
  ]

-- What a file name leads to: no file, or one that is open; `none` where `open` refuses.
abbrev pub open_file : Option (Option Env) → Option (Option Env)
open_file none = some none
open_file (some none) = none
open_file (some (some f)) = some (some f)

unfoldable pub test_dma : Benchmark → Cmd Result
unfolding bench_run
test_dma b = elim b.device [
  | none ↦ pure invalid
  | some fpga ↦ elim (open_file b.infile) [
    | none ↦ pure invalid
    | some infile ↦ elim (open_file b.outfile) [
      | none ↦ pure invalid
      | some outfile ↦ bench_run b fpga infile outfile
    ]
  ]
]
