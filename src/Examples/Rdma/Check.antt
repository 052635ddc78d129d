-- ===== src/Examples/Rdma/Check.antt =====
-- examples/rdma_test: the check of the received data, in write.c on the server's side and in read.c
-- on the client's.
use reco_nic.Prelude.{
  ℕ, zero, suc, ◌+◌, ◌/◌, ◌%◌, ◌^◌, ◌≤◌, ◌<◌, ◌≡◌, ◌↔◌, refl, sym, ap, ◌∙◌, List, some, inl, inr,
  Bool, true, false, Bool-cases, arith, ==-refl, ◌==◌, if◌then◌else◌,
}
use reco_nic.Machine.{Machine, Env, Cmd, Ptr, RnDev, RdmaDev, RdmaBuff, ret, deref}
use reco_nic.Memory.Content.{load}
use reco_nic.Memory.Device.{IsRegular, replay}
use reco_nic.Memory.Read.{read_to_buffer-load}
use reco_nic.Reconic.Address.{is_device_address}
use reco_nic.Rdma.Dump.Laws.{dump_registers-OnlyReads}
use reco_nic.Examples.Systolic.Run.{int_at}
use reco_nic.Examples.Rdma.Setup.{Options, Shell, Objects}
use reco_nic.Examples.Rdma.Steps.{fetch_buffer, data_match}
use reco_nic.Examples.Rdma.Write.{write_server_check}
use reco_nic.Examples.Rdma.Read.{read_client_check}

-- The first `r` words from the `i`-th on are the same.
abbrev pub SameWords : (r i : ℕ) (xs ys : List ℕ) → Type 0
SameWords r i xs ys = (p : ℕ) → i ≤ p → p < i + r → int_at xs p ≡ int_at ys p

data_match-SameWords :
    (r i : ℕ) (xs ys : List ℕ) → data_match r i xs ys ≡ true → SameWords r i xs ys
unfolding data_match
data_match-SameWords zero i xs ys h p from to = absurd (omega arith)
data_match-SameWords (suc r) i xs ys h p from to = elim (Bool-cases (i == p)) [
  | inl here ↦
      let e : i ≡ p = ground arith in ap (int_at xs) (sym e) ∙ ground arith ∙ ap (int_at ys) e
  | inr later ↦ data_match-SameWords r (i + 1) xs ys (ground arith) p (ground arith) (omega arith)
]

SameWords-data_match :
    (r i : ℕ) (xs ys : List ℕ) → SameWords r i xs ys → data_match r i xs ys ≡ true
unfolding data_match
SameWords-data_match zero i xs ys h = refl
SameWords-data_match (suc r) i xs ys h =
    let rest =
      SameWords-data_match r (i + 1) xs ys (λ p from to. h p (omega arith) (omega arith)) in
    rw (h i (omega arith) (omega arith)) (rw (==-refl (int_at ys i)) rest)

module _ (env : Env) (initial : ℕ → ℕ) (regular : IsRegular env initial) where
  -- What a buffer of `size` bytes holds, on the card or in the host's memory.
  abbrev pub held : Machine → RdmaBuff → (size : ℕ) → List ℕ
  held m b size =
      if is_device_address b.dma_addr
      then load (replay initial m.file).content (b.dma_addr % 2 ^ 37) size
      else load m.memory b.buffer size

  fetch_buffer-held :
      (m : Machine) (buf : RdmaBuff) (size : ℕ)
      → (m' : Machine) × (fetch_buffer env size buf.buffer buf.dma_addr m
          ≡ ret (some (held m buf size)) m')
        × (m' ≡ record m { file = m'.file })
  unfolding fetch_buffer
  fetch_buffer-held m buf size = elim (Bool-cases (is_device_address buf.dma_addr)) [
    | inl card ↦
        let (m', run, _, frame) = read_to_buffer-load env initial size buf.dma_addr m regular in
        (m', rw card (rw run refl), frame)
    | inr host ↦ (m, rw host refl, refl)
  ]

  module _ (shell : Shell) (o : Options) (b : Objects) (sw_golden : List ℕ) (m : Machine) (p : Ptr)
      (buf : RdmaBuff) (rn : RnDev) (d : RdmaDev) (at_buf : m.buffs p ≡ some buf)
      (at_rn : m.rn_devs b.rn_dev ≡ some rn) (points : rn.rdma_dev ≡ b.rdma_dev)
      (at_dev : m.rdma_devs b.rdma_dev ≡ some d) where
    abbrev Judged : Cmd Bool → Type 0
    Judged check =
        (v : Bool) × (m' : Machine) × (check m ≡ ret v m')
        × ((v ≡ true) ↔ SameWords (o.payload_size / 4) 0 (held m buf o.payload_size) sw_golden)

    -- The check of the received data ends, for the server of the write program and for the client
    -- of the read program: on a regular device, it succeeds exactly when each whole word of the
    -- payload that the buffer holds, on the card or in the host's memory, is the word that is
    -- expected. What is left behind the last whole word is not looked at.
    pub checks-Judged :
        Judged (write_server_check env shell o b sw_golden p)
        × Judged (read_client_check env shell o b sw_golden p)
    unfolding write_server_check read_client_check
    checks-Judged =
        let size = o.payload_size in
        let bytes = held m buf size in
        let (m1, fetched, frame) = fetch_buffer-held m buf size in
        let at_dev1 : m1.rdma_devs b.rdma_dev ≡ some d =
          ap (λ (x : Machine). x.rdma_devs b.rdma_dev) frame ∙ at_dev in
        let at_rn1 : m1.rn_devs b.rn_dev ≡ some rn =
          ap (λ (x : Machine). x.rn_devs b.rn_dev) frame ∙ at_rn in
        let (m2, dumped2, _) = dump_registers-OnlyReads env m1 b.rdma_dev 0 2 d at_dev1 in
        let (m3, dumped3, _) = dump_registers-OnlyReads env m1 b.rdma_dev 1 2 d at_dev1 in
        let yes : data_match (size / 4) 0 bytes sw_golden ≡ true
            → (true ≡ true) ↔ SameWords (size / 4) 0 bytes sw_golden =
          λ e. ((λ _. data_match-SameWords (size / 4) 0 bytes sw_golden e), (λ _. refl)) in
        let no : data_match (size / 4) 0 bytes sw_golden ≡ false
            → (false ≡ true) ↔ SameWords (size / 4) 0 bytes sw_golden =
          λ e. (
            (λ x. cc x),
            (λ h. cc (sym e ∙ SameWords-data_match (size / 4) 0 bytes sw_golden h)),
          ) in
        elim (Bool-cases (data_match (size / 4) 0 bytes sw_golden)) [
          | inl e ↦ (
            (
              true,
              m2,
              rw (at_buf, deref)
                  (rw fetched (rw e (rw (at_rn1, deref) (rw points (rw dumped2 refl))))),
              yes e,
            ),
            (true, m3, rw (at_buf, deref) (rw fetched (rw e (rw dumped3 refl))), yes e),
          )
          | inr e ↦ (
            (false, m1, rw (at_buf, deref) (rw fetched (rw e refl)), no e),
            (false, m1, rw (at_buf, deref) (rw fetched (rw e refl)), no e),
          )
        ]
