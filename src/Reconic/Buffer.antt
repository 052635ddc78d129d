-- ===== src/Reconic/Buffer.antt =====
-- `allocate_rdma_buffer` of lib/reconic.c: buffers are cut from the huge pages of the host or from
-- the device's memory, one behind the other, and never given back.
pub mod Laws
pub mod Offsets
pub mod Host
use text.Mathlib.Text.{◌==◌ as str_eq}
use Prim.Native.String.{String}
use reco_nic.Prelude.{ℕ, ◌+◌, bit_and, bit_or, not, ◌==◌, leb, ltb, if◌then◌else◌, u32, u64}
use reco_nic.Machine.{
  Machine, Env, Cmd, Ptr, null, RnDev, RdmaBuff, ret, exit_failure, abort, deref, malloc,
  set_rn_dev, set_buff, ◌>>=◌, ◌>>◌,
}
use reco_nic.Reconic.Address.{device_mem_offset}
use reco_nic.Reconic.Paging.{get_buffer_paddr}

abbrev pub host_mem : String
host_mem = "host_mem"

abbrev pub device_mem : String
device_mem = "dev_mem"

abbrev pub device_mem_size : ℕ
device_mem_size = 4294967296

abbrev pub hardware_page_size : ℕ
hardware_page_size = 4096

abbrev pub hardware_page_size_alignment_mask : ℕ
hardware_page_size_alignment_mask = 0xfffffffffffff000

abbrev pub hardware_page_size_address_mask : ℕ
hardware_page_size_address_mask = 0x0000000000000fff

-- Where a buffer of `buf_size` bytes starts, given the first free offset: the same lines for the
-- host's and for the device's memory.
unfoldable pub start_offset : ℕ → ℕ → ℕ
start_offset offset buf_size =
    let next_page = bit_and (u64 (offset + hardware_page_size)) hardware_page_size_alignment_mask in
    let in_page = bit_and offset hardware_page_size_address_mask in
    if leb buf_size hardware_page_size
    then (if ltb hardware_page_size (u64 (in_page + buf_size)) then next_page else offset)
    else (if not (in_page == 0) then next_page else offset)

module _ (env : Env) where
  unfoldable pub allocate_host_buffer : Ptr → Ptr → ℕ → Cmd Ptr
  allocate_host_buffer rdma_buffer rn_dev buf_size = do
    rn ← deref (λ m. m.rn_devs) rn_dev
    base_buf ← deref (λ m. m.buffs) rn.base_buf
    let offset = start_offset rn.buffer_offset buf_size
    let buffer = u64 (base_buf.buffer + offset)
    set_rn_dev rn_dev (record rn { buffer_offset = u64 (offset + buf_size) })
    dma_addr ← get_buffer_paddr env buffer
    set_buff rdma_buffer (record { buffer = buffer; dma_addr = dma_addr; buf_size = u32 buf_size })
    λ m. ret rdma_buffer m

  unfoldable pub allocate_device_buffer : Ptr → Ptr → ℕ → Cmd Ptr
  allocate_device_buffer rdma_buffer rn_dev buf_size = do
    rn ← deref (λ m. m.rn_devs) rn_dev
    let offset = start_offset rn.dev_buffer_offset buf_size
    let address = bit_or offset device_mem_offset
    set_rn_dev rn_dev (record rn { dev_buffer_offset = u64 (offset + buf_size) })
    set_buff rdma_buffer (record { buffer = address; dma_addr = address; buf_size = u32 buf_size })
    if leb (u64 (offset + buf_size)) device_mem_size then (λ m. ret rdma_buffer m) else abort

  unfoldable pub allocate_rdma_buffer : Ptr → ℕ → String → Cmd Ptr
  unfolding allocate_host_buffer allocate_device_buffer
  allocate_rdma_buffer rn_dev buf_size buf_location = do
    rdma_buffer ← malloc env
    if rdma_buffer == null
        then exit_failure
        else if str_eq buf_location host_mem
        then allocate_host_buffer rdma_buffer rn_dev buf_size
        else if str_eq buf_location device_mem
        then allocate_device_buffer rdma_buffer rn_dev buf_size
        else exit_failure
