-- ===== src/Rdma/Pd/Laws.antt =====
-- What registering a memory region leaves in the table of protection domains.
use reco_nic.Prelude.{
  ℕ, ◌+◌, ◌*◌, ◌/◌, ◌%◌, ◌^◌, ◌≤◌, ◌<◌, ◌≡◌, ◌≢◌, ap, List, [], ◌∷◌, ◌++◌, none, some, ◌⊎◌, false,
  arith, bit_and, bit_or, ◌==◌, if◌then◌else◌, same_address, u16, u32, shl32, shr,
}
use reco_nic.Bits.{and_low, or_field, zero-bit_and}
use reco_nic.Machine.{
  Machine, Ptr, RdmaDev, RdmaBuff, RdmaPd, Access, write, ret, fault, update, deref,
}
use reco_nic.Machine.Trace.{last_write, WritesWithin, last_write-append_outside}
use reco_nic.Registers.{
  rn_rdma_pdt_virtaddrlsb, rn_rdma_pdt_virtaddrmsb, rn_rdma_pdt_bufbaseaddrlsb,
  rn_rdma_pdt_bufbaseaddrmsb, rn_rdma_pdt_bufrkey, rn_rdma_pdt_wrrdbuflen, rn_rdma_pdt_accessdesc,
}
use reco_nic.Reconic.Address.{is_device_address}
use reco_nic.Reconic.Address.Laws.{bar_window}
use reco_nic.Rdma.Device.Writes.{card_address, Holds64}
use reco_nic.Rdma.Pd.{get_rdma_pd_config_addr, config_pd, rdma_register_memory_region}

-- The register `r` of the entry `pd_num`.
abbrev pub pd_register : (r pd_num : ℕ) → ℕ
pd_register r pd_num = r + 0x100 * pd_num

module _ (base : ℕ) (size : ℕ) (pd : RdmaPd) where
  abbrev pub entry : ℕ
  entry = 0x100 * pd.pd_num

  abbrev pub pd_writes : List Access
  pd_writes =
      write (base + (rn_rdma_pdt_accessdesc + entry))
        (u32 (bit_or (shl32 pd.buffer_size_msb 16) pd.pd_access_type))
      ∷ write (base + (rn_rdma_pdt_wrrdbuflen + entry)) (u32 size)
      ∷ write (base + (rn_rdma_pdt_bufrkey + entry)) (u32 pd.r_key)
      ∷ write (base + (rn_rdma_pdt_bufbaseaddrmsb + entry)) (u32 pd.dma_addr_msb)
      ∷ write (base + (rn_rdma_pdt_bufbaseaddrlsb + entry)) (u32 pd.dma_addr_lsb)
      ∷ write (base + (rn_rdma_pdt_virtaddrmsb + entry)) (u32 pd.virtual_addr_msb)
      ∷ write (base + (rn_rdma_pdt_virtaddrlsb + entry)) (u32 pd.virtual_addr_lsb)
      ∷ []

  config_pd-writes :
      (m : Machine)
      → pd.pd_num < 2 ^ 16
      → config_pd base size pd m ≡ ret tt (record m { bus = pd_writes ++ m.bus })
  unfolding config_pd get_rdma_pd_config_addr
  config_pd-writes m h = ground arith

  pd_writes-WritesWithin :
      WritesWithin (base + (0x40000 + entry)) (base + (0x40100 + entry)) pd_writes
  pd_writes-WritesWithin = omega arith

-- The table's entry `pd_num` grants read and write access to a buffer under a key.
pub record Grants (base : ℕ) (t : List Access) (pd_num r_key : ℕ) (buf : RdmaBuff) : Type 0 where
  pub virtual_address :
      Holds64 t
        (base + pd_register rn_rdma_pdt_virtaddrlsb pd_num)
        (base + pd_register rn_rdma_pdt_virtaddrmsb pd_num)
        buf.buffer
  pub physical_address :
      Holds64 t
        (base + pd_register rn_rdma_pdt_bufbaseaddrlsb pd_num)
        (base + pd_register rn_rdma_pdt_bufbaseaddrmsb pd_num)
        (card_address buf.dma_addr)
  pub key : last_write t (base + pd_register rn_rdma_pdt_bufrkey pd_num) ≡ some r_key
  pub size : last_write t (base + pd_register rn_rdma_pdt_wrrdbuflen pd_num) ≡ some buf.buf_size
  pub access : last_write t (base + pd_register rn_rdma_pdt_accessdesc pd_num) ≡ some 2

pub record IsRegion (pd : RdmaPd) (r_key : ℕ) (buf : RdmaBuff) : Type 0 where
  pub pd_num : pd.pd_num < 0x200
  pub access : pd.pd_access_type ≡ 2
  pub key : r_key < 2 ^ 32
  pub buffer : buf.buffer < 2 ^ 64
  pub dma_addr : buf.dma_addr < 2 ^ 64
  pub buf_size : buf.buf_size < 2 ^ 32

-- The entry's fields as `rdma_register_memory_region` computes them.
abbrev pub registered : RdmaPd → (r_key : ℕ) → Ptr → RdmaBuff → RdmaPd
registered pd r_key rdma_buf buf =
    let on_card = is_device_address buf.dma_addr in
    let low = bit_and buf.dma_addr 0x00000000ffffffff in
    let high = bit_and (shr buf.dma_addr 32) 0x00000000ffffffff in
    record pd {
      mr_buffer = rdma_buf;
      dma_addr_lsb = if on_card then u32 low else u32 (bit_and low 0xffffffff);
      dma_addr_msb = if on_card then u32 high else u32 (bit_and high 0xff);
      virtual_addr_lsb = u32 (bit_and buf.buffer 0x00000000ffffffff);
      virtual_addr_msb = u32 (bit_and (shr buf.buffer 32) 0x00000000ffffffff);
      buffer_size_lsb = u32 (bit_and buf.buf_size 0x00000000ffffffff);
      buffer_size_msb = u16 (u32 (bit_and (shr buf.buf_size 32) 0x00000000ffffffff));
      r_key = r_key;
    }

low_half : (v : ℕ) → some (u32 (u32 (bit_and v 0xffffffff))) ≡ some (v % 2 ^ 32)
low_half v = ground (arith, and_low 32 v)

high_half :
    (v : ℕ) → v < 2 ^ 64 → some (u32 (u32 (bit_and (shr v 32) 0xffffffff))) ≡ some (v / 2 ^ 32)
high_half v h = ground (arith, and_low 32 (shr v 32))

pd_writes-Grants :
    (base : ℕ) (pd : RdmaPd) (r_key : ℕ) (p : Ptr) (buf : RdmaBuff) (old : List Access)
    → IsRegion pd r_key buf
    → Grants base
        (pd_writes base buf.buf_size (registered pd r_key p buf) ++ old)
        pd.pd_num
        r_key
        buf
pd_writes-Grants base pd r_key p buf old h = record {
  virtual_address = simp same_address (low_half buf.buffer, high_half buf.buffer h.buffer);
  physical_address = simp same_address (
    ground (arith, and_low 32 buf.dma_addr, and_low 32 (bit_and buf.dma_addr 0xffffffff)),
    ground (
      arith,
      h.dma_addr,
      and_low 32 (shr buf.dma_addr 32),
      and_low 8 (bit_and (shr buf.dma_addr 32) 0xffffffff),
    ),
  );
  key = simp same_address (ap some (omega (arith, h.key)));
  size = simp same_address (ap some (omega (arith, h.buf_size)));
  access = simp same_address (
      ground (
        arith,
        h.access,
        h.buf_size,
        and_low 32 (shr buf.buf_size 32),
        zero-bit_and 0xffffffff,
        or_field 16 0 2 (omega arith),
      ));
}

-- The machine after a registration.
abbrev pub registered_machine :
    (base r_key : ℕ) (pd_ptr buf_ptr : Ptr) → RdmaPd → RdmaBuff → Machine → Machine
registered_machine base r_key pd_ptr buf_ptr pd buf m =
    let pd' = registered pd r_key buf_ptr buf in
    record m {
      pds = update m.pds pd_ptr (some pd');
      bus = pd_writes base buf.buf_size pd' ++ m.bus;
    }

module _ (m : Machine) (p pd_ptr buf_ptr : Ptr) (d : RdmaDev) (pd : RdmaPd) (buf : RdmaBuff)
    (r_key : ℕ) (real_p : p ≢ 0) (real_pd : pd_ptr ≢ 0) (real_buf : buf_ptr ≢ 0)
    (mapped : d.axil_ctl ≢ 0) (at_p : m.rdma_devs p ≡ some d)
    (at_win : m.win_sizes d.win_size ≡ some bar_window) (at_pd : m.pds pd_ptr ≡ some pd)
    (at_buf : m.buffs buf_ptr ≡ some buf) (region : IsRegion pd r_key buf) where
  abbrev after : Machine
  after = registered_machine d.axil_ctl r_key pd_ptr buf_ptr pd buf m

  pub rdma_register_memory_region-run :
      rdma_register_memory_region p pd_ptr r_key buf_ptr m ≡ ret tt after
  unfolding rdma_register_memory_region
  rdma_register_memory_region-run =
      let pd' = registered pd r_key buf_ptr buf in
      let m1 = record m { pds = update m.pds pd_ptr (some pd') } in
      let p_real : (p == 0) ≡ false = ground arith in
      let pd_real : (pd_ptr == 0) ≡ false = ground arith in
      let buf_real : (buf_ptr == 0) ≡ false = ground arith in
      let base_real : (d.axil_ctl == 0) ≡ false = ground arith in
      rw (at_p, deref)
        (rw (at_win, deref)
          (rw (p_real, pd_real, buf_real)
            (rw (at_pd, deref)
              (rw (at_buf, deref)
                (rw base_real (
                  config_pd-writes d.axil_ctl buf.buf_size pd' m1
                    (omega (arith, region.pd_num))))))))

  pub registered-Grants : Grants d.axil_ctl after.bus pd.pd_num r_key buf
  registered-Grants = pd_writes-Grants d.axil_ctl pd r_key buf_ptr buf m.bus region

  pub registered_outside :
      (a : ℕ)
      → (a < d.axil_ctl + (0x40000 + 0x100 * pd.pd_num))
        ⊎ (d.axil_ctl + (0x40100 + 0x100 * pd.pd_num) ≤ a)
      → last_write after.bus a ≡ last_write m.bus a
  registered_outside a out =
      let pd' = registered pd r_key buf_ptr buf in
      last_write-append_outside (d.axil_ctl + (0x40000 + 0x100 * pd.pd_num))
        (d.axil_ctl + (0x40100 + 0x100 * pd.pd_num)) a (pd_writes d.axil_ctl buf.buf_size pd') m.bus
        (pd_writes-WritesWithin d.axil_ctl buf.buf_size pd') out

-- Registering a region in one of the 512 entries of the table, on a mapped device whose bridge
-- window is set, returns; the entry then grants read and write access to the buffer under the key,
-- and every register outside the entry keeps its last value: those of the other entries, the global
-- ones and those of all queue pairs.
pub rdma_register_memory_region-Grants :
    (m : Machine) (p pd_ptr buf_ptr : Ptr) (d : RdmaDev) (pd : RdmaPd) (buf : RdmaBuff) (r_key : ℕ)
    → p ≢ 0
    → pd_ptr ≢ 0
    → buf_ptr ≢ 0
    → d.axil_ctl ≢ 0
    → m.rdma_devs p ≡ some d
    → m.win_sizes d.win_size ≡ some bar_window
    → m.pds pd_ptr ≡ some pd
    → m.buffs buf_ptr ≡ some buf
    → IsRegion pd r_key buf
    → (m' : Machine) × (rdma_register_memory_region p pd_ptr r_key buf_ptr m ≡ ret tt m')
      × Grants d.axil_ctl m'.bus pd.pd_num r_key buf
      × ((a : ℕ)
          → (a < d.axil_ctl + (0x40000 + 0x100 * pd.pd_num))
            ⊎ (d.axil_ctl + (0x40100 + 0x100 * pd.pd_num) ≤ a)
          → last_write m'.bus a ≡ last_write m.bus a)
rdma_register_memory_region-Grants m p pd_ptr buf_ptr d pd buf r_key real_p real_pd real_buf mapped
      at_p at_win at_pd at_buf region =
    (
      registered_machine d.axil_ctl r_key pd_ptr buf_ptr pd buf m,
      rdma_register_memory_region-run m p pd_ptr buf_ptr d pd buf r_key real_p real_pd real_buf
          mapped at_p at_win at_pd at_buf region,
      registered-Grants m p pd_ptr buf_ptr d pd buf r_key real_p real_pd real_buf mapped at_p at_win
          at_pd at_buf region,
      registered_outside m p pd_ptr buf_ptr d pd buf r_key real_p real_pd real_buf mapped at_p
          at_win at_pd at_buf region,
    )

-- With a NULL device the window is read through it before the test for NULL: the call is a fault,
-- never the exit that the test is for.
pub rdma_register_memory_region-null :
    (m : Machine) (pd_ptr buf_ptr : Ptr) (r_key : ℕ)
    → m.rdma_devs 0 ≡ none
    → rdma_register_memory_region 0 pd_ptr r_key buf_ptr m ≡ fault
unfolding rdma_register_memory_region
rdma_register_memory_region-null m pd_ptr buf_ptr r_key nothing = rw (nothing, deref)
