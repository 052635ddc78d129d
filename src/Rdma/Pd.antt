-- ===== src/Rdma/Pd.antt =====
-- Protection domains: one entry of 256 bytes in the engine's table for each number.
pub mod Laws
pub mod Table
use reco_nic.Prelude.{ℕ, ◌+◌, ◌*◌, bit_and, bit_or, ◌==◌, if◌then◌else◌, u16, u32, shl32, shr}
use reco_nic.Machine.{
  Machine, Env, Cmd, Ptr, null, RdmaPd, ret, exit_failure, pure, deref, not_null, malloc, set_pd,
  modify, update, ◌>>=◌, ◌>>◌,
}
use reco_nic.Prelude.{none}
use reco_nic.Registers.{
  rn_rdma_pdt_pdpdnum, rn_rdma_pdt_virtaddrlsb, rn_rdma_pdt_virtaddrmsb, rn_rdma_pdt_bufbaseaddrlsb,
  rn_rdma_pdt_bufbaseaddrmsb, rn_rdma_pdt_bufrkey, rn_rdma_pdt_wrrdbuflen, rn_rdma_pdt_accessdesc,
}
use reco_nic.Control.{write32_data}
use reco_nic.Reconic.Address.{is_device_address}

unfoldable pub get_rdma_pd_config_addr : (offset pd_num : ℕ) → ℕ
get_rdma_pd_config_addr offset pd_num = u32 (offset + u32 (0x100 * pd_num))

-- The fields that are set to 0 here are those that `malloc` leaves unset.
unfoldable pub allocate_rdma_pd : Env → Ptr → (pd_num : ℕ) → Cmd Ptr
unfolding write32_data
allocate_rdma_pd env rdma_dev pd_num = if rdma_dev == null then exit_failure else do
  rdma_pd ← malloc env
  not_null rdma_pd
  d ← deref (λ m. m.rdma_devs) rdma_dev
  write32_data d.axil_ctl (get_rdma_pd_config_addr rn_rdma_pdt_pdpdnum pd_num) pd_num
  set_pd rdma_pd (record {
    pd_num = pd_num;
    virtual_addr_lsb = 0;
    virtual_addr_msb = 0;
    dma_addr_lsb = 0;
    dma_addr_msb = 0;
    r_key = 0;
    buffer_size_lsb = 0;
    buffer_size_msb = 0;
    pd_access_type = bit_and 2 0x0000ffff;
    mr_buffer = null;
  })
  pure rdma_pd

-- The seven registers that `rdma_register_memory_region` programs.
unfoldable pub config_pd : (axil_ctl buffer_size : ℕ) → RdmaPd → Cmd (Unit {0})
unfolding write32_data
config_pd axil_ctl buffer_size pd = do
  write32_data axil_ctl (get_rdma_pd_config_addr rn_rdma_pdt_virtaddrlsb pd.pd_num)
      pd.virtual_addr_lsb
  write32_data axil_ctl (get_rdma_pd_config_addr rn_rdma_pdt_virtaddrmsb pd.pd_num)
      pd.virtual_addr_msb
  write32_data axil_ctl (get_rdma_pd_config_addr rn_rdma_pdt_bufbaseaddrlsb pd.pd_num)
      pd.dma_addr_lsb
  write32_data axil_ctl (get_rdma_pd_config_addr rn_rdma_pdt_bufbaseaddrmsb pd.pd_num)
      pd.dma_addr_msb
  write32_data axil_ctl (get_rdma_pd_config_addr rn_rdma_pdt_bufrkey pd.pd_num) pd.r_key
  write32_data axil_ctl (get_rdma_pd_config_addr rn_rdma_pdt_wrrdbuflen pd.pd_num) buffer_size
  write32_data axil_ctl (get_rdma_pd_config_addr rn_rdma_pdt_accessdesc pd.pd_num)
      (bit_or (shl32 pd.buffer_size_msb 16) pd.pd_access_type)

-- The window is read before `rdma_dev` is tested, so the first test never stops the program.
unfoldable pub rdma_register_memory_region :
    (rdma_dev rdma_pd : Ptr) (r_key : ℕ) (rdma_buf : Ptr) → Cmd (Unit {0})
unfolding config_pd
rdma_register_memory_region rdma_dev rdma_pd r_key rdma_buf = do
  d ← deref (λ m. m.rdma_devs) rdma_dev
  w ← deref (λ m. m.win_sizes) d.win_size
  if rdma_dev == null
      then exit_failure
      else if rdma_pd == null
      then exit_failure
      else if rdma_buf == null
      then exit_failure
      else do
        pd ← deref (λ m. m.pds) rdma_pd
        buf ← deref (λ m. m.buffs) rdma_buf
        let on_card = is_device_address buf.dma_addr
        let low = bit_and buf.dma_addr 0x00000000ffffffff
        let high = bit_and (shr buf.dma_addr 32) 0x00000000ffffffff
        let pd' = record pd {
          mr_buffer = rdma_buf;
          dma_addr_lsb = if on_card then u32 low else u32 (bit_and low w.win_size_lsb);
          dma_addr_msb = if on_card then u32 high else u32 (bit_and high w.win_size_msb);
          virtual_addr_lsb = u32 (bit_and buf.buffer 0x00000000ffffffff);
          virtual_addr_msb = u32 (bit_and (shr buf.buffer 32) 0x00000000ffffffff);
          buffer_size_lsb = u32 (bit_and buf.buf_size 0x00000000ffffffff);
          buffer_size_msb = u16 (u32 (bit_and (shr buf.buf_size 32) 0x00000000ffffffff));
          r_key = r_key;
        }
        set_pd rdma_pd pd'
        if d.axil_ctl == 0 then exit_failure else config_pd d.axil_ctl buf.buf_size pd'

-- `free`. Freeing what is not allocated is a fault.
unfoldable pub destroy_rdma_pd_entry : Ptr → Cmd (Unit {0})
destroy_rdma_pd_entry pd =
    if pd == null
    then pure tt
    else do old ← deref (λ m. m.pds) pd; modify (λ m. record m { pds = update m.pds pd none })
