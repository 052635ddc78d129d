-- ===== src/Machine/Run.antt =====
-- Runs of the library's functions: a state monad with the ways a C program can end.
use reco_nic.Prelude.{◌≡◌, ap, ◌+◌, Option, none, some, Bool, ◌==◌, if◌then◌else◌}
use reco_nic.Machine.Heap.{
  Machine, Ptr, RnDev, WinSize, RdmaBuff, RdmaDev, RdmaGlbCsr, RdmaPd, RdmaQp, null, update,
}
use reco_nic.Machine.Platform.{Env}

-- `exit_failure`: `exit(EXIT_FAILURE)`. `abort`: an `assert` that does not hold. `fault`: a read or
-- write through a null or dangling pointer, or past an array. `out_of_fuel`: a loop still running.
pub data Outcome (A : Type 0) : Type 0 where
  ret : A → Machine → Outcome A
  exit_failure abort : Machine → Outcome A
  fault : Outcome A
  out_of_fuel : Machine → Outcome A

abbrev pub Cmd : Type 0 → Type 0
Cmd A = Machine → Outcome A

abbrev pub pure : {A : Type 0} → A → Cmd A
pure a m = ret a m

abbrev pub and_then : {A B : Type 0} → Outcome A → (A → Cmd B) → Outcome B
and_then (ret a m) k = k a m
and_then (exit_failure m) k = exit_failure m
and_then (abort m) k = abort m
and_then fault k = fault
and_then (out_of_fuel m) k = out_of_fuel m

infixl 5 ◌>>=◌ ◌>>◌
abbrev pub ◌>>=◌ : {A B : Type 0} → Cmd A → (A → Cmd B) → Cmd B
◌>>=◌ c k m = and_then (c m) k

abbrev pub ◌>>◌ : {B : Type 0} → Cmd (Unit {0}) → Cmd B → Cmd B
c >> d = c >>= λ _. d

abbrev pub when : Bool → Cmd (Unit {0}) → Cmd (Unit {0})
when b c m = if b then c m else ret tt m

abbrev pub get : Cmd Machine
get m = ret m m

abbrev pub modify : (Machine → Machine) → Cmd (Unit {0})
modify f m = ret tt (f m)

abbrev pub deref : {A : Type 0} → (Machine → Ptr → Option A) → Ptr → Cmd A
deref field p m = elim (field m p) [ none ↦ fault | some a ↦ ret a m ]

-- A store through a pointer that nothing has tested.
abbrev pub not_null : Ptr → Cmd (Unit {0})
not_null p m = if p == null then fault else ret tt m

-- `malloc` gives fresh memory, or NULL. Its content is set by the caller.
abbrev pub malloc : Env → Cmd Ptr
malloc env m =
    if env.malloc_fails m.next then ret null m else ret m.next (record m { next = m.next + 1 })

abbrev pub set_rn_dev : Ptr → RnDev → Cmd (Unit {0})
set_rn_dev p v = modify (λ m. record m { rn_devs = update m.rn_devs p (some v) })

abbrev pub set_win_size : Ptr → WinSize → Cmd (Unit {0})
set_win_size p v = modify (λ m. record m { win_sizes = update m.win_sizes p (some v) })

abbrev pub set_buff : Ptr → RdmaBuff → Cmd (Unit {0})
set_buff p v = modify (λ m. record m { buffs = update m.buffs p (some v) })

abbrev pub set_rdma_dev : Ptr → RdmaDev → Cmd (Unit {0})
set_rdma_dev p v = modify (λ m. record m { rdma_devs = update m.rdma_devs p (some v) })

abbrev pub set_glb_csr : Ptr → RdmaGlbCsr → Cmd (Unit {0})
set_glb_csr p v = modify (λ m. record m { glb_csrs = update m.glb_csrs p (some v) })

abbrev pub set_pd : Ptr → RdmaPd → Cmd (Unit {0})
set_pd p v = modify (λ m. record m { pds = update m.pds p (some v) })

abbrev pub set_qp : Ptr → RdmaQp → Cmd (Unit {0})
set_qp p v = modify (λ m. record m { qps = update m.qps p (some v) })

abbrev final : {A : Type 0} → Outcome A → Machine → Machine
final (ret a m) m0 = m
final (exit_failure m) m0 = m
final (abort m) m0 = m
final fault m0 = m0
final (out_of_fuel m) m0 = m

-- What a run returns with is one machine.
pub ret_machine : {A : Type 0} → (a b : A) (m m' : Machine) → ret a m ≡ ret b m' → m ≡ m'
ret_machine a b m m' e = ap (λ r. final r m) e
