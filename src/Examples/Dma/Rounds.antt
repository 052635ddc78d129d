-- ===== src/Examples/Dma/Rounds.antt =====
-- examples/dma_test/dma_test.c, `test_dma`: where the rounds of a benchmark that writes go.
use reco_nic.Prelude.{
  ℕ, zero, suc, ◌+◌, ◌≤◌, ◌<◌, ◌^◌, ◌%◌, ◌≡◌, ◌≢◌, refl, sym, ap, ◌∙◌, List, [], ◌∷◌, ◌++◌, some,
  none, false, arith, length, ◌⊎◌, inl, inr, take_all, Bool-cases, ◌==◌,
}
use mathlib.Core.Path.{fun_ext}
use reco_nic.Machine.{Machine, Env, FileOp, Outcome, ret, update, file_write}
use reco_nic.Memory.{rw_max_size}
use reco_nic.Memory.Content.{store, store-append, store_outside}
use reco_nic.Memory.Device.{IsRegular, replay}
use reco_nic.Memory.Laws.{write_from_buffer-store}
use reco_nic.Examples.Dma.{Benchmark, Result, success, write_from_buffer, bench_rounds, test_dma}
use reco_nic.Examples.Dma.Laws.{transfers-same, write_from_buffer-base_zero}

-- Writing the same bytes twice.
store_agree :
    (c d : ℕ → ℕ) (p : ℕ) (bs : List ℕ) (a : ℕ)
    → ((x : ℕ) → (x < p) ⊎ (p + length bs ≤ x) → c x ≡ d x)
    → store c p bs a ≡ store d p bs a
unfolding store
store_agree c d p [] a same = same a (ground arith)
store_agree c d p (b ∷ bs) a same = store_agree (update c p b) (update d p b) (p + 1) bs a (λ x out.
    elim (Bool-cases (p == x)) [
      | inl here ↦ rw here refl
      | inr apart ↦ rw apart (same x (ground arith))
    ])

store_twice : (c : ℕ → ℕ) (p : ℕ) (bs : List ℕ) → store (store c p bs) p bs ≡ store c p bs
store_twice c p bs = fun_ext λ a. store_agree (store c p bs) c p bs a (store_outside c p bs)

-- `n` copies of a list, one behind the other.
abbrev pub copies : ℕ → List ℕ → List ℕ
copies zero bs = []
copies (suc n) bs = bs ++ copies n bs

module _ (fpga : Env) (initial : ℕ → ℕ) (regular : IsRegular fpga initial) (buffer : List ℕ) where
  abbrev Leaves : Machine → (ℕ → ℕ) → Outcome Result → Type 0
  Leaves m c r =
      (m' : Machine) × (r ≡ ret success m')
      × ((replay initial m'.file).content ≡ c)
      × (m' ≡ record m { file = m'.file })

  rounds_base_zero :
      (n i : ℕ) (out : List FileOp) (m : Machine)
      → length buffer ≤ rw_max_size
      → let f = replay initial m.file in
        Leaves m
          (store f.content f.position (copies n buffer))
          (bench_rounds fpga none false 0 (length buffer) n i buffer out m)
  unfolding bench_rounds store
  rounds_base_zero zero i out m small = (m, refl, refl, refl)
  rounds_base_zero (suc n) i out m small =
      let f = replay initial m.file in
      let m1 = record m { file = file_write buffer (some (length buffer)) ∷ m.file } in
      let (m', run, content, frame) = rounds_base_zero n (i + 1) out m1 small in
      rw (write_from_buffer-base_zero fpga initial regular buffer m small) (
        m',
        run,
        content
            ∙ ap
                (λ (t : List ℕ).
                  store (store f.content f.position t) (f.position + length buffer)
                    (copies n buffer))
                (take_all (length buffer) buffer (omega arith))
            ∙ sym (store-append f.content f.position buffer (copies n buffer)),
        frame,
      )

  module _ (addr : ℕ) (real : addr ≢ 0) (low : addr < 2 ^ 37)
      (fits : addr + length buffer < 2 ^ 64) where
    -- One round, and what the card holds behind it.
    abbrev Wrote : Machine → Type 0
    Wrote m =
        let c = store (replay initial m.file).content addr buffer in
        (m1 : Machine) × (write_from_buffer fpga buffer (length buffer) addr m
          ≡ ret (some (length buffer)) m1)
        × ((replay initial m1.file).content ≡ c)
        × (m1 ≡ record m { file = m1.file })

    round : (m : Machine) → Wrote m
    round m =
        let same = (transfers-same fpga buffer (length buffer) addr real low fits).0 in
        let (m1, run, content, frame) =
          write_from_buffer-store fpga initial buffer addr m regular in
        let at : addr % 2 ^ 37 ≡ addr = omega arith in
        (
          m1,
          rw same run,
          content ∙ ap (λ (o : ℕ). store (replay initial m.file).content o buffer) at,
          frame,
        )

    rounds_keep :
        (n i : ℕ) (out : List FileOp) (m : Machine)
        → store (replay initial m.file).content addr buffer ≡ (replay initial m.file).content
        → Leaves m
            (replay initial m.file).content
            (bench_rounds fpga none false addr (length buffer) n i buffer out m)
    unfolding bench_rounds
    rounds_keep zero i out m kept = (m, refl, refl, refl)
    rounds_keep (suc n) i out m kept =
        let (m1, run, content, frame) = round m in
        let same = content ∙ kept in
        let (m', run', content', frame') =
          rounds_keep n (i + 1) out m1
            (ap (λ (c : ℕ → ℕ). store c addr buffer) same ∙ kept ∙ sym same) in
        rw run (m', run', content' ∙ same, frame' ∙ rw frame refl)

    rounds_at :
        (n i : ℕ) (out : List FileOp) (m : Machine)
        → Leaves m
            (store (replay initial m.file).content addr buffer)
            (bench_rounds fpga none false addr (length buffer) (suc n) i buffer out m)
    unfolding bench_rounds
    rounds_at n i out m =
        let c = (replay initial m.file).content in
        let (m1, run, content, frame) = round m in
        let (m', run', content', frame') = rounds_keep n (i + 1) out m1 (
          ap (λ (d : ℕ → ℕ). store d addr buffer) content
          ∙ store_twice c addr buffer
          ∙ sym content) in
        rw run (m', run', content' ∙ content, frame' ∙ rw frame refl)

-- A benchmark that writes `buffer` to the card, with no file named and memory for the buffer.
abbrev pub writing : (fpga : Env) (addr count : ℕ) → List ℕ → Benchmark
writing fpga addr count buffer = record {
  device = some fpga;
  infile = none;
  outfile = none;
  posix_memalign_fails = false;
  allocated = buffer;
  addr = addr;
  size = length buffer;
  count = count;
  read_scenario = false;
}

module _ (fpga : Env) (initial : ℕ → ℕ) (buffer : List ℕ) (m : Machine) where
  -- On a regular device, a benchmark that writes at an address of the card's memory that is not 0
  -- ends with success after any number of rounds but none. The card's memory then holds the buffer
  -- at that address and is unchanged elsewhere.
  pub test_dma-address :
      (addr n : ℕ)
      → IsRegular fpga initial
      → addr ≢ 0
      → addr < 2 ^ 37
      → addr + length buffer < 2 ^ 64
      → (m' : Machine) × (test_dma (writing fpga addr (suc n) buffer) m ≡ ret success m')
        × ((replay initial m'.file).content ≡ store (replay initial m.file).content addr buffer)
        × (m' ≡ record m { file = m'.file })
  unfolding test_dma
  test_dma-address addr n regular real low fits =
      rounds_at fpga initial regular buffer addr real low fits n 0 [] m

  -- At address 0, which is the default, with a buffer that one call can transfer, the rounds do not
  -- go to the same place: on a regular device that starts at position 0, `n` rounds end with success
  -- and the card's memory holds `n` copies of the buffer, one behind the other, from 0 on.
  pub test_dma-address_zero :
      (n : ℕ)
      → IsRegular fpga initial
      → length buffer ≤ rw_max_size
      → (replay initial m.file).position ≡ 0
      → (m' : Machine) × (test_dma (writing fpga 0 n buffer) m ≡ ret success m')
        × ((replay initial m'.file).content
            ≡ store (replay initial m.file).content 0 (copies n buffer))
  unfolding test_dma
  test_dma-address_zero n regular small start =
      let (m', run, content, _) = rounds_base_zero fpga initial regular buffer n 0 [] m small in
      let c = (replay initial m.file).content in
      (m', run, content ∙ ap (λ (p : ℕ). store c p (copies n buffer)) start)
