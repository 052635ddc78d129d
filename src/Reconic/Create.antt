-- ===== src/Reconic/Create.antt =====
-- `create_rn_dev` of lib/reconic.c, and `allocate_hugepages_buffer` of lib/rdma_api.c.
pub mod Laws
use reco_nic.Prelude.{
  ℕ, ◌+◌, ◌-◌, ◌*◌, ◌^◌, Option, none, some, bit_and, ◌==◌, if◌then◌else◌, u8, u32, shr,
}
use reco_nic.Machine.{
  Env, Cmd, Ptr, null, ret, exit_failure, pure, deref, not_null, malloc, set_rn_dev, set_win_size,
  set_buff, ◌>>=◌, ◌>>◌,
}
use reco_nic.Registers.{rn_scr_map_size}
use reco_nic.Reconic.Paging.{get_buffer_paddr}
use reco_nic.Reconic.Bdf.{config_rn_dev_axib_bdf}

-- What `mmap` gives where it fails.
abbrev pub map_failed : ℕ
map_failed = 2 ^ 64 - 1

-- The product of a `uint32_t` and the size of a huge page, an `int`.
abbrev pub hugepages_size : (num_hugepages : ℕ) → ℕ
hugepages_size num_hugepages = u32 (num_hugepages * 2 ^ 21)

module _ (env : Env) where
  -- The test is for NULL, which is not what `mmap` gives where it fails. `buf_size` stays unset.
  unfoldable pub allocate_hugepages_buffer : (num_hugepages : ℕ) → Cmd Ptr
  allocate_hugepages_buffer num_hugepages = do
    rdma_buffer ← malloc env
    if rdma_buffer == null then exit_failure else do
      let buffer = env.map_hugepages (hugepages_size num_hugepages)
      if buffer == null
          then exit_failure
          else if env.mlock_fails buffer (hugepages_size num_hugepages)
          then exit_failure
          else do
            dma_addr ← get_buffer_paddr env buffer
            set_buff rdma_buffer (record { buffer = buffer; dma_addr = dma_addr; buf_size = 0 })
            pure rdma_buffer

  -- From the mapping of the registers on.
  unfoldable pub map_rn_dev :
      (rn_dev win_size : Ptr) → (axil_scr_base num_hugepages_request num_qp : ℕ) → Cmd Ptr
  map_rn_dev rn_dev win_size axil_scr_base num_hugepages_request num_qp = do
    base_buf ← malloc env
    if base_buf == null then exit_failure else do
      let buffer = env.map_hugepages (hugepages_size num_hugepages_request)
      if env.mlock_fails buffer (hugepages_size num_hugepages_request) then exit_failure else do
        dma_addr ← get_buffer_paddr env buffer
        set_buff base_buf (record { buffer = buffer; dma_addr = dma_addr; buf_size = 0 })
        set_rn_dev rn_dev (record {
          axil_ctl = axil_scr_base;
          axil_map_size = rn_scr_map_size;
          base_buf = base_buf;
          rdma_dev = null;
          buffer_offset = 0;
          dev_buffer_offset = 0;
          num_qp = u8 num_qp;
          win_size = win_size;
        })
        let phy_addr_msb = u32 (shr (bit_and dma_addr 0xffffffff00000000) 32)
        let phy_addr_lsb = u32 (bit_and dma_addr 0x00000000ffffffff)
        config_rn_dev_axib_bdf rn_dev phy_addr_msb phy_addr_lsb
        pure rn_dev

  -- The device and the descriptor of the resource. The object is set in one step, before anything
  -- reads it.
  unfoldable pub create_rn_dev : (num_hugepages_request num_qp : ℕ) → Cmd (Ptr × ℕ)
  create_rn_dev num_hugepages_request num_qp = do
    rn_dev ← malloc env
    win_size ← malloc env
    if rn_dev == null then exit_failure else do
      not_null win_size
      set_win_size win_size (record { win_size_lsb = 0; win_size_msb = 0 })
      λ m. elim env.open_resource [
        | none ↦ exit_failure m
        | some scr ↦ elim env.map_resource [
          | none ↦ exit_failure m
          | some axil_scr_base ↦
              (do
                rn_dev ← map_rn_dev rn_dev win_size axil_scr_base num_hugepages_request num_qp
                pure (rn_dev, scr))
                m
        ]
      ]
