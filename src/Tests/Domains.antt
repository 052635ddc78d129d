-- ===== src/Tests/Domains.antt =====
-- A test of registrations: two regions, then the first entry once more.
use reco_nic.Prelude.{ℕ, ◌≡◌, refl, some, List, [], ◌∷◌, arith}
use reco_nic.Machine.{Machine, RdmaPd, ret, update}
use reco_nic.Rdma.Pd.Table.{view}
use reco_nic.Rdma.Pd.Table.Refine.{
  Registration, IsReady, register_all, grant_all, register_all-refines,
}
use reco_nic.Tests.{machine, rdma_device, domain, buffer_at}

-- A second protection domain, at 12.
abbrev second : RdmaPd
second = record domain { pd_num = 6 }

abbrev m0 : Machine
m0 = record (machine 0x10000) { pds = update (machine 0x10000).pds 12 (some second) }

abbrev call : (pd_ptr buf_ptr r_key pd_num address : ℕ) → Registration
call pd_ptr buf_ptr r_key pd_num address = record {
  pd_ptr = pd_ptr;
  buf_ptr = buf_ptr;
  r_key = r_key;
  pd_num = pd_num;
  buf = buffer_at address;
}

abbrev calls : List Registration
calls = call 6 3 8 5 0x10000 ∷ call 12 4 9 6 0x20000 ∷ call 6 5 10 5 0x30000 ∷ []

IsReady-first : IsReady m0 (call 6 3 8 5 0x10000)
IsReady-first = record {
  real_pd = omega arith;
  real_buf = omega arith;
  pd = domain;
  at_pd = refl;
  at_buf = refl;
  number = refl;
  region = record {
    pd_num = omega arith;
    access = refl;
    key = omega arith;
    buffer = omega arith;
    dma_addr = omega arith;
    buf_size = omega arith;
  };
}

IsReady-second : IsReady m0 (call 12 4 9 6 0x20000)
IsReady-second = record {
  real_pd = omega arith;
  real_buf = omega arith;
  pd = second;
  at_pd = refl;
  at_buf = refl;
  number = refl;
  region = record {
    pd_num = omega arith;
    access = refl;
    key = omega arith;
    buffer = omega arith;
    dma_addr = omega arith;
    buf_size = omega arith;
  };
}

IsReady-third : IsReady m0 (call 6 5 10 5 0x30000)
IsReady-third = record {
  real_pd = omega arith;
  real_buf = omega arith;
  pd = domain;
  at_pd = refl;
  at_buf = refl;
  number = refl;
  region = record {
    pd_num = omega arith;
    access = refl;
    key = omega arith;
    buffer = omega arith;
    dma_addr = omega arith;
    buf_size = omega arith;
  };
}

register_all-refines_example :
    (m' : Machine) × (register_all 1 calls m0 ≡ ret tt m')
    × (view 0x1000 m'.bus ≡ grant_all calls (view 0x1000 []))
register_all-refines_example =
    register_all-refines 1 rdma_device (omega arith) (omega arith) calls m0 (refl, refl)
      (IsReady-first, (IsReady-second, (IsReady-third, tt)))
