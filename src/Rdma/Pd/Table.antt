-- ===== src/Rdma/Pd/Table.antt =====
-- The table of protection domains as a map from numbers to grants, and the registers that hold it.
pub mod Refine
use reco_nic.Prelude.{
  ℕ, ◌+◌, ◌*◌, ◌/◌, ◌%◌, ◌^◌, ◌≤◌, ◌<◌, ◌≡◌, ◌≢◌, refl, sym, ap, ◌∙◌, List, [], ◌∷◌, ◌++◌, Option,
  none, some, ◌⊎◌, inl, inr, Bool-cases, arith, ◌==◌, ltb, tests, if◌then◌else◌,
}
use mathlib.Core.Path.{fun_ext}
use reco_nic.Machine.{
  Machine, Cmd, Ptr, RdmaDev, RdmaBuff, RdmaPd, Access, ret, pure, update, ◌>>=◌, ◌>>◌,
}
use reco_nic.Machine.Trace.{last_write}
use reco_nic.Registers.{
  rn_rdma_pdt_virtaddrlsb, rn_rdma_pdt_virtaddrmsb, rn_rdma_pdt_bufbaseaddrlsb,
  rn_rdma_pdt_bufbaseaddrmsb, rn_rdma_pdt_bufrkey, rn_rdma_pdt_wrrdbuflen, rn_rdma_pdt_accessdesc,
}
use reco_nic.Reconic.Address.Laws.{bar_window}
use reco_nic.Rdma.Device.Writes.{card_address}
use reco_nic.Rdma.Pd.{rdma_register_memory_region}
use reco_nic.Rdma.Pd.Laws.{
  pd_register, IsRegion, Grants, registered, registered_machine, rdma_register_memory_region-run,
  registered-Grants, registered_outside,
}

-- What an entry of the table says; `none` where a register has never been written.
pub record Entry : Type 0 where
  pub virtual_address : Option ℕ
  pub physical_address : Option ℕ
  pub key : Option ℕ
  pub size : Option ℕ
  pub access : Option ℕ

abbrev pub Table : Type 0
Table = ℕ → Entry

-- A grant of read and write access, as the abstract operation puts it into the table.
abbrev pub grant : RdmaBuff → (r_key : ℕ) → Entry
grant buf r_key = record {
  virtual_address = some buf.buffer;
  physical_address = some (card_address buf.dma_addr);
  key = some r_key;
  size = some buf.buf_size;
  access = some 2;
}

-- A 64-bit value in two registers.
abbrev pub word64 : Option ℕ → Option ℕ → Option ℕ
word64 none msb = none
word64 (some lsb) none = none
word64 (some lsb) (some msb) = some (msb * 2 ^ 32 + lsb)

-- The table that the registers at `base` hold.
abbrev pub view : (base : ℕ) → List Access → Table
view base t n =
    let at = λ (r : ℕ). last_write t (base + pd_register r n) in
    record {
      virtual_address = word64 (at rn_rdma_pdt_virtaddrlsb) (at rn_rdma_pdt_virtaddrmsb);
      physical_address = word64 (at rn_rdma_pdt_bufbaseaddrlsb) (at rn_rdma_pdt_bufbaseaddrmsb);
      key = at rn_rdma_pdt_bufrkey;
      size = at rn_rdma_pdt_wrrdbuflen;
      access = at rn_rdma_pdt_accessdesc;
    }

pub Grants-view :
    (base : ℕ) (t : List Access) (n r_key : ℕ) (buf : RdmaBuff)
    → Grants base t n r_key buf
    → view base t n ≡ grant buf r_key
Grants-view base t n r_key buf g =
    let v : word64 (last_write t (base + pd_register rn_rdma_pdt_virtaddrlsb n))
          (last_write t (base + pd_register rn_rdma_pdt_virtaddrmsb n))
        ≡ some buf.buffer =
      rw (g.virtual_address.0, g.virtual_address.1) (ap some (omega arith)) in
    let p : word64 (last_write t (base + pd_register rn_rdma_pdt_bufbaseaddrlsb n))
          (last_write t (base + pd_register rn_rdma_pdt_bufbaseaddrmsb n))
        ≡ some (card_address buf.dma_addr) =
      rw (g.physical_address.0, g.physical_address.1) (ap some (omega arith)) in
    λ i. record {
      virtual_address = v i;
      physical_address = p i;
      key = g.key i;
      size = g.size i;
      access = g.access i;
    }

pub outside-view :
    (base n k : ℕ) (t old : List Access)
    → ((a : ℕ)
        → (a < base + (0x40000 + 0x100 * k)) ⊎ (base + (0x40100 + 0x100 * k) ≤ a)
        → last_write t a ≡ last_write old a)
    → n ≢ k
    → view base t n ≡ view base old n
outside-view base n k t old same ne =
    let at = λ (r : ℕ) (low : 0x40000 ≤ r) (high : r < 0x40100).
      same (base + pd_register r n) (elim (Bool-cases (ltb n k)) [
        | inl below ↦ inl (omega (tests, below))
        | inr above ↦ inr (ground arith)
      ]) in
    λ i. record {
      virtual_address =
          word64 (at rn_rdma_pdt_virtaddrlsb (omega arith) (omega arith) i)
            (at rn_rdma_pdt_virtaddrmsb (omega arith) (omega arith) i);
      physical_address =
          word64 (at rn_rdma_pdt_bufbaseaddrlsb (omega arith) (omega arith) i)
            (at rn_rdma_pdt_bufbaseaddrmsb (omega arith) (omega arith) i);
      key = at rn_rdma_pdt_bufrkey (omega arith) (omega arith) i;
      size = at rn_rdma_pdt_wrrdbuflen (omega arith) (omega arith) i;
      access = at rn_rdma_pdt_accessdesc (omega arith) (omega arith) i;
    }
