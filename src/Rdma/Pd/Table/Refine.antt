-- ===== src/Rdma/Pd/Table/Refine.antt =====
-- Registrations of memory regions, `rdma_register_memory_region` in lib/rdma_api.c, as updates of the
-- table.
use reco_nic.Prelude.{
  ℕ, ◌≡◌, ◌≢◌, refl, sym, ap, ◌∙◌, List, [], ◌∷◌, some, inl, inr, Bool-cases, arith, ◌==◌,
}
use mathlib.Core.Path.{fun_ext}
use reco_nic.Machine.{Machine, Cmd, Ptr, RdmaDev, RdmaBuff, RdmaPd, ret, pure, update, ◌>>◌}
use reco_nic.Reconic.Address.Laws.{bar_window}
use reco_nic.Rdma.Pd.{rdma_register_memory_region}
use reco_nic.Rdma.Pd.Laws.{
  IsRegion, registered, registered_machine, rdma_register_memory_region-run, registered-Grants,
  registered_outside,
}
use reco_nic.Rdma.Pd.Table.{Table, grant, view, Grants-view, outside-view}

-- One call of `rdma_register_memory_region`, with the buffer and the number that its pointers lead
-- to.
pub record Registration : Type 0 where
  pub pd_ptr : Ptr
  pub buf_ptr : Ptr
  pub r_key : ℕ
  pub pd_num : ℕ
  pub buf : RdmaBuff

pub record IsReady (m : Machine) (r : Registration) : Type 0 where
  pub real_pd : r.pd_ptr ≢ 0
  pub real_buf : r.buf_ptr ≢ 0
  pub pd : RdmaPd
  pub at_pd : m.pds r.pd_ptr ≡ some pd
  pub at_buf : m.buffs r.buf_ptr ≡ some r.buf
  pub number : pd.pd_num ≡ r.pd_num
  pub region : IsRegion pd r.r_key r.buf

abbrev pub AreReady : Machine → List Registration → Type 0
AreReady m [] = Unit
AreReady m (r ∷ rs) = IsReady m r × AreReady m rs

-- The calls in their order, and what they do to the abstract table.
abbrev pub register_all : Ptr → List Registration → Cmd (Unit {0})
register_all p [] = pure tt
register_all p (r ∷ rs) = do
  rdma_register_memory_region p r.pd_ptr r.r_key r.buf_ptr
  register_all p rs

abbrev pub grant_all : List Registration → Table → Table
grant_all [] t = t
grant_all (r ∷ rs) t = grant_all rs (update t r.pd_num (grant r.buf r.r_key))

module _ (p : Ptr) (d : RdmaDev) (real_p : p ≢ 0) (mapped : d.axil_ctl ≢ 0) where
  -- The device object and its window are in place.
  abbrev pub HasDevice : Machine → Type 0
  HasDevice m = (m.rdma_devs p ≡ some d) × (m.win_sizes d.win_size ≡ some bar_window)

  abbrev after : (r : Registration) (m : Machine) → IsReady m r → Machine
  after r m h = registered_machine d.axil_ctl r.r_key r.pd_ptr r.buf_ptr h.pd r.buf m

  keeps_IsReady :
      (r s : Registration) (m : Machine) (h : IsReady m r) → IsReady m s → IsReady (after r m h) s
  keeps_IsReady r s m h k = elim (Bool-cases (r.pd_ptr == s.pd_ptr)) [
    | inl same ↦
        let e : r.pd_ptr ≡ s.pd_ptr = ground arith in
        let one : some h.pd ≡ some k.pd = sym h.at_pd ∙ ap m.pds e ∙ k.at_pd in
        record {
          real_pd = k.real_pd;
          real_buf = k.real_buf;
          pd = registered h.pd r.r_key r.buf_ptr r.buf;
          at_pd = rw same refl;
          at_buf = k.at_buf;
          number = ground (arith, one, k.number);
          region = record {
            pd_num = h.region.pd_num;
            access = h.region.access;
            key = k.region.key;
            buffer = k.region.buffer;
            dma_addr = k.region.dma_addr;
            buf_size = k.region.buf_size;
          };
        }
    | inr apart ↦ record {
      real_pd = k.real_pd;
      real_buf = k.real_buf;
      pd = k.pd;
      at_pd = rw apart k.at_pd;
      at_buf = k.at_buf;
      number = k.number;
      region = k.region;
    }
  ]

  keeps_all :
      (r : Registration) (rs : List Registration) (m : Machine) (h : IsReady m r)
      → AreReady m rs
      → AreReady (after r m h) rs
  keeps_all r [] m h k = tt
  keeps_all r (s ∷ rs) m h k = (keeps_IsReady r s m h k.0, keeps_all r rs m h k.1)

  step_view :
      (r : Registration) (m : Machine) (h : IsReady m r)
      → HasDevice m
      → view d.axil_ctl (after r m h).bus
        ≡ update (view d.axil_ctl m.bus) r.pd_num (grant r.buf r.r_key)
  step_view r m h dev =
      let old = view d.axil_ctl m.bus in
      let new = view d.axil_ctl (after r m h).bus in
      let granted = Grants-view d.axil_ctl (after r m h).bus h.pd.pd_num r.r_key r.buf (
        registered-Grants m p r.pd_ptr r.buf_ptr d h.pd r.buf r.r_key real_p h.real_pd h.real_buf
          mapped dev.0 dev.1 h.at_pd h.at_buf h.region) in
      let frame =
        registered_outside m p r.pd_ptr r.buf_ptr d h.pd r.buf r.r_key real_p h.real_pd h.real_buf
          mapped dev.0 dev.1 h.at_pd h.at_buf h.region in
      fun_ext λ n. elim (Bool-cases (r.pd_num == n)) [
        | inl here ↦
            let e : n ≡ h.pd.pd_num = ground (arith, h.number) in rw here (ap new e ∙ granted)
        | inr apart ↦ rw apart (
            outside-view d.axil_ctl n h.pd.pd_num (after r m h).bus m.bus frame
              (λ e. ground (arith, h.number)))
      ]

  -- Registering memory regions, one after the other, on a mapped device whose bridge window is set,
  -- refines an abstract table that maps the number of a protection domain to a grant: the calls
  -- return, and the table that the registers then hold is the old one with the regions' entries
  -- replaced in the order of the calls, whether they are different entries or the same.
  pub register_all-refines :
      (rs : List Registration) (m : Machine)
      → HasDevice m
      → AreReady m rs
      → (m' : Machine) × (register_all p rs m ≡ ret tt m')
        × (view d.axil_ctl m'.bus ≡ grant_all rs (view d.axil_ctl m.bus))
  register_all-refines [] m dev ready = (m, refl, refl)
  register_all-refines (r ∷ rs) m dev ready =
      let h = ready.0 in
      let (m', run, table) =
        register_all-refines rs (after r m h) dev (keeps_all r rs m h ready.1) in
      (
        m',
        rw
            (rdma_register_memory_region-run m p r.pd_ptr r.buf_ptr d h.pd r.buf r.r_key real_p
              h.real_pd h.real_buf mapped dev.0 dev.1 h.at_pd h.at_buf h.region)
            run,
        table ∙ ap (grant_all rs) (step_view r m h dev),
      )
