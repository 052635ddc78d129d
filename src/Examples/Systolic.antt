-- ===== src/Examples/Systolic.antt =====
-- examples/systolic_mm/systolic_mm.c: a matrix product on the card, checked against one in software.
-- The transfers of the program are those of dma_utils.c, line for line, and its commands are those
-- of lib/control_api.c. Times are measured in floats and not modelled.
pub mod Product
pub mod Run
pub mod Compare
pub mod Verdict
use reco_nic.Prelude.{ℕ, zero, suc, ◌+◌, ◌*◌, List, [], ◌∷◌, get_or, set, u32}

abbrev pub data_size : ℕ
data_size = 16

-- The loop over `k`, with the rounds that are left. An `int` is kept as its bit pattern.
unfoldable pub mmult_k : (rounds i j k : ℕ) (in1 in2 out : List ℕ) → List ℕ
mmult_k zero i j k in1 in2 out = out
mmult_k (suc r) i j k in1 in2 out =
    let p = i * data_size + j in
    mmult_k r i j (k + 1) in1 in2 (
      set out p (
        u32 (get_or out p 0 + get_or in1 (i * data_size + k) 0 * get_or in2 (k * data_size + j) 0)))

unfoldable pub mmult_j : (rounds i j : ℕ) (in1 in2 out : List ℕ) → List ℕ
unfolding mmult_k
mmult_j zero i j in1 in2 out = out
mmult_j (suc r) i j in1 in2 out = mmult_j r i (j + 1) in1 in2 (mmult_k data_size i j 0 in1 in2 out)

unfoldable pub mmult_i : (rounds i : ℕ) (in1 in2 out : List ℕ) → List ℕ
unfolding mmult_j
mmult_i zero i in1 in2 out = out
mmult_i (suc r) i in1 in2 out = mmult_i r (i + 1) in1 in2 (mmult_j data_size i 0 in1 in2 out)

-- What `out` holds afterwards.
unfoldable pub software_mmult : (in1 in2 out : List ℕ) → List ℕ
unfolding mmult_i
software_mmult in1 in2 out = mmult_i data_size 0 in1 in2 out
