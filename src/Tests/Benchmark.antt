-- ===== src/Tests/Benchmark.antt =====
-- Tests of the DMA benchmark and of the systolic program.
use reco_nic.Prelude.{
  ℕ, ◌+◌, ◌%◌, ◌^◌, ◌≡◌, ◌⊎◌, ◌↔◌, ap, refl, some, List, [], ◌∷◌, false, arith, replicate, u32,
}
use reco_nic.Machine.{Machine, Env, ret}
use reco_nic.Memory
use reco_nic.Memory.Content.{store}
use reco_nic.Memory.Device.{replay}
use reco_nic.Examples.Dma.{success, write_from_buffer, read_to_buffer, test_dma}
use reco_nic.Examples.Dma.Laws.{transfers-same}
use reco_nic.Examples.Dma.Rounds.{writing, copies, test_dma-address, test_dma-address_zero}
use reco_nic.Examples.Systolic.{software_mmult}
use reco_nic.Examples.Systolic.Product.{dot, entry, software_mmult-product}
use reco_nic.Examples.Systolic.Run.{Host, Verdict, passed, failed, systolic_mm}
use reco_nic.Examples.Systolic.Verdict.{Works, Answers, HoldsProduct, systolic_mm-verdict}
use reco_nic.Tests.{card, card-IsRegular, zeros, machine}

abbrev bytes : List ℕ
bytes = 10 ∷ 20 ∷ 30 ∷ []

transfers-same_example :
    (write_from_buffer (card 0) bytes 3 0x1000 ≡ Memory.write_from_buffer (card 0) bytes 3 0x1000)
    × (read_to_buffer (card 0) 3 0x1000 ≡ Memory.read_to_buffer (card 0) 3 0x1000)
transfers-same_example =
    transfers-same (card 0) bytes 3 0x1000 (omega arith) (omega arith) (omega arith)

test_dma-address_example :
    (m' : Machine) × (test_dma (writing (card 0) 0x1000 2 bytes) (machine 0) ≡ ret success m')
    × ((replay zeros m'.file).content ≡ store zeros 0x1000 bytes)
    × (m' ≡ record (machine 0) { file = m'.file })
test_dma-address_example =
    test_dma-address (card 0) zeros bytes (machine 0) 0x1000 1 card-IsRegular (omega arith)
      (omega arith) (omega arith)

test_dma-address_zero_example :
    (m' : Machine) × (test_dma (writing (card 0) 0 2 bytes) (machine 0) ≡ ret success m')
    × ((replay zeros m'.file).content ≡ store zeros 0 (copies 2 bytes))
test_dma-address_zero_example =
    test_dma-address_zero (card 0) zeros bytes (machine 0) 2 card-IsRegular (omega arith) refl

software_mmult-product_example :
    entry (software_mmult (replicate 256 2) (replicate 256 3) (replicate 256 0)) 1 15 % 2 ^ 32
    ≡ (entry (replicate 256 0) 1 15 + dot (replicate 256 2) (replicate 256 3) 16 1 15 0) % 2 ^ 32
software_mmult-product_example =
    software_mmult-product (replicate 256 2) (replicate 256 3) 1 15 (replicate 256 0) (omega arith)
      (omega arith) refl

abbrev host : Host
host = record {
  memalign_fails = λ i. false;
  mlock_fails = λ i. false;
  open_pcie_fails = false;
  map_registers = some 0x1000;
  open_device_fails = false;
}

-- A kernel that is done at once and whose result is 1024 times the byte 7.
abbrev kernel : Env
kernel = record (card 0xdd) { file_read = λ t n. some (replicate 1024 7) }

kernel-Works : Works host kernel 0x1000
kernel-Works = record {
  memalign = λ i. refl;
  mlock = λ i. refl;
  open_pcie = refl;
  map_registers = refl;
  open_device = refl;
  seeks = λ t o. refl;
  writes = λ t bs small. ap some (omega arith);
}

kernel-Answers : Answers kernel 0x1000 0 (replicate 1024 7) (machine 0)
kernel-Answers = record {
  busy = λ i p. absurd (omega arith);
  done = omega arith;
  result = refl;
  whole = refl;
}

systolic_mm-verdict_example :
    (v : Verdict) × (m' : Machine) × (systolic_mm kernel host 1 (machine 0) ≡ ret v m')
    × ((v ≡ passed) ⊎ (v ≡ failed))
    × ((v ≡ passed) ↔ (HoldsProduct (replicate 1024 7) × (u32 0xdd ≡ 0xdd)))
systolic_mm-verdict_example =
    systolic_mm-verdict host kernel 0x1000 0 (replicate 1024 7) (machine 0) kernel-Works
      kernel-Answers 1 (omega arith)
