-- ===== src/Reconic/Create/Laws.antt =====
-- A created device is mapped, its buffer is found, and the bridge opens the terabyte around it.
use reco_nic.Prelude.{
  ℕ, ◌+◌, ◌*◌, ◌/◌, ◌%◌, ◌^◌, ◌<◌, ◌≡◌, ◌≢◌, refl, ap, ◌∙◌, ==-refl, some, false, arith, bit_and,
  ◌==◌, u8, u32, shr,
}
use reco_nic.Bits.{and_low, and_field}
use reco_nic.Machine.{Machine, Env, RnDev, WinSize, RdmaBuff, ret, null, update}
use reco_nic.Reconic.Address.Laws.{bar_window}
use reco_nic.Registers.{rn_scr_map_size}
use reco_nic.Reconic.Paging.Laws.{InFrame, physical, get_buffer_paddr-frame}
use reco_nic.Reconic.Bdf.Laws.{WindowAt, config_rn_dev_axib_bdf-WindowAt}
use reco_nic.Reconic.Create.{create_rn_dev, map_rn_dev, hugepages_size}

-- What a successful creation needs of the system: no call fails, and the page map names a frame for
-- the first huge page.
pub record Works (env : Env) (num_hugepages scr base bytes : ℕ) : Type 0 where
  pub enough : (n : ℕ) → env.malloc_fails n ≡ false
  pub opened : env.open_resource ≡ some scr
  pub mapped : env.map_resource ≡ some base
  pub locked :
      env.mlock_fails
        (env.map_hugepages (hugepages_size num_hugepages))
        (hugepages_size num_hugepages)
      ≡ false
  pub frame : InFrame env (env.map_hugepages (hugepages_size num_hugepages)) bytes

-- Where no call of the system fails, `create_rn_dev` returns a device at the mapped registers with
-- nothing allocated yet and its number of queue pairs cut to 8 bits, whose buffer is the huge pages
-- at the physical address of their first byte. The window mask is that of 40 bits, and the eight
-- windows of the bridge cover the terabyte of the buffer.
pub create_rn_dev-ready :
    (env : Env) (m : Machine) (num_hugepages num_qp scr base bytes : ℕ)
    → Works env num_hugepages scr base bytes
    → m.next ≢ 0
    → let d = physical bytes (env.map_hugepages (hugepages_size num_hugepages)) in
      (m' : Machine) × (rn : RnDev) × (create_rn_dev env num_hugepages num_qp m
        ≡ ret (m.next, scr) m')
      × (m'.rn_devs m.next ≡ some rn)
      × (rn.axil_ctl ≡ base)
      × (rn.num_qp ≡ num_qp % 256)
      × (rn.buffer_offset ≡ 0)
      × (rn.dev_buffer_offset ≡ 0)
      × (m'.buffs rn.base_buf
          ≡ some (record {
            buffer = env.map_hugepages (hugepages_size num_hugepages);
            dma_addr = d;
            buf_size = 0;
          }))
      × (m'.win_sizes rn.win_size ≡ some bar_window)
      × ((i : ℕ) → i < 8 → WindowAt base m'.bus i (d / 2 ^ 40 * 2 ^ 40 + i * 2 ^ 37) (2 ^ 37))
unfolding create_rn_dev map_rn_dev
create_rn_dev-ready env m num_hugepages num_qp scr base bytes g fresh =
    let d = physical bytes (env.map_hugepages (hugepages_size num_hugepages)) in
    let d_fits : d < 2 ^ 64 = omega (arith, g.frame.fits) in
    let buf : RdmaBuff = record {
      buffer = env.map_hugepages (hugepages_size num_hugepages);
      dma_addr = d;
      buf_size = 0;
    } in
    let rn : RnDev = record {
      axil_ctl = base;
      axil_map_size = rn_scr_map_size;
      base_buf = m.next + 1 + 1;
      rdma_dev = null;
      buffer_offset = 0;
      dev_buffer_offset = 0;
      num_qp = u8 num_qp;
      win_size = m.next + 1;
    } in
    let old : WinSize = record { win_size_lsb = 0; win_size_msb = 0 } in
    let m1 = record m {
      next = m.next + 1 + 1 + 1;
      win_sizes = update m.win_sizes (m.next + 1) (some old);
      buffs = update m.buffs (m.next + 1 + 1) (some buf);
      rn_devs = update m.rn_devs m.next (some rn);
    } in
    let at_rn : m1.rn_devs m.next ≡ some rn = rw (==-refl m.next) refl in
    let at_win : m1.win_sizes (m.next + 1) ≡ some old = rw (==-refl (m.next + 1)) refl in
    let high : u32 (shr (bit_and d 0xffffffff00000000) 32) ≡ d / 2 ^ 32 =
      ground (arith, d_fits, and_field 32 32 d) in
    let low : u32 (bit_and d 0xffffffff) ≡ d % 2 ^ 32 = ground (arith, and_low 32 d) in
    let (m', run, window, windows, others, frame) =
      config_rn_dev_axib_bdf-WindowAt m1 m.next rn old d fresh at_rn at_win d_fits in
    let real0 : (m.next == 0) ≡ false = ground arith in
    let real1 : (m.next + 1 == 0) ≡ false = ground arith in
    let real2 : (m.next + 1 + 1 == 0) ≡ false = ground arith in
    (
      m',
      rn,
      rw (g.enough m.next) (
          rw (g.enough (m.next + 1)) (
            rw real0 (
              rw real1 (
                rw g.opened (
                  rw g.mapped (
                    rw (g.enough (m.next + 1 + 1)) (
                      rw real2 (
                        rw g.locked (
                          rw
                            (get_buffer_paddr-frame env
                              (record m {
                                next = m.next + 1 + 1 + 1;
                                win_sizes = update m.win_sizes (m.next + 1) (some old);
                              })
                              (env.map_hugepages (hugepages_size num_hugepages)) bytes
                              g.frame.page_size g.frame.sought g.frame.found g.frame.fits)
                            rw high (rw low (rw run refl))))))))))),
      ap (λ (x : Machine). x.rn_devs m.next) frame ∙ at_rn,
      refl,
      refl,
      refl,
      refl,
      ap (λ (x : Machine). x.buffs (m.next + 1 + 1)) frame ∙ rw (==-refl (m.next + 1 + 1)) refl,
      window,
      windows,
    )
