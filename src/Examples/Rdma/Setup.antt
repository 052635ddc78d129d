-- ===== src/Examples/Rdma/Setup.antt =====
-- examples/rdma_test/write.c, from the options to the queue pair. The other programs do the same.
use text.Mathlib.Text.{◌==◌ as str_eq}
use Prim.Native.String.{String}
use reco_nic.Prelude.{
  ℕ, ◌+◌, ◌*◌, ◌/◌, ◌%◌, ◌^◌, List, [], ◌∷◌, ◌++◌, Option, none, some, Bool, true, false, not, ltb,
  ◌==◌, ◌||◌, if◌then◌else◌, u16, u32, u64,
}
use reco_nic.Machine.{
  Env, Cmd, Ptr, MacAddr, out_of_fuel, pure, when, deref, not_null, malloc, modify, ◌>>=◌, ◌>>◌,
}
use reco_nic.Reconic.Address.{convert_ip_addr_to_uint, convert_mac_addr_str_to_uint}
use reco_nic.Reconic.Interface.{IfAddr, get_mac_addr_from_str_ip}
use reco_nic.Reconic.Create.{create_rn_dev}
use reco_nic.Reconic.Buffer.{allocate_rdma_buffer, host_mem, device_mem}
use reco_nic.Rdma.Device.{create_rdma_dev, open_rdma_dev}
use reco_nic.Rdma.Pd.{allocate_rdma_pd}
use reco_nic.Rdma.Qp.{allocate_rdma_qp, config_last_rq_psn, config_sq_psn}
use reco_nic.Rdma.Destroy.{free_buff, destroy_rn_dev}
use reco_nic.Examples.Systolic.Run.{test_data, int_bytes}

abbrev pub preallocated_hugepages : ℕ
preallocated_hugepages = 256

abbrev pub p_key : ℕ
p_key = 0x1234

abbrev pub r_key : ℕ
r_key = 0x0008

-- `dst_mac` is the address of the variable that holds the peer's hardware address.
pub record Options : Type 0 where
  pub src_ip : ℕ
  pub src_ip_str : String
  pub dst_ip : ℕ
  pub dst_mac : MacAddr
  pub tcp_sport : ℕ
  pub udp_sport : ℕ
  pub dst_qpid : ℕ
  pub payload_size : ℕ
  pub wqe_count : ℕ
  pub qp_location : String
  pub server : Bool
  pub client : Bool

-- A line that `arp` prints: that it has no entry, one with the six words of a hardware address
-- behind "at", or another one.
pub data ArpLine : Type 0 where
  no_match other : ArpLine
  entry : (w0 w1 w2 w3 w4 w5 : ℕ) → ArpLine

-- An option as `getopt_long` gives it, its argument as `sscanf` or `atoi` reads it. With the peer's
-- address come the lines of `arp`, or `none` if `popen` fails.
pub data Opt : Type 0 where
  src_ip : String → (ip0 ip1 ip2 ip3 : ℕ) → Opt
  dst_ip : (ip0 ip1 ip2 ip3 : ℕ) → Option (List ArpLine) → Opt
  udp_sport tcp_sport dst_qp payload_size batch_size : ℕ → Opt
  qp_location : String → Opt
  server client help unknown : Opt

-- Parsing goes on, or ends the program with success or with failure.
pub data Parsed (A : Type 0) : Type 0 where
  parsed : A → Parsed A
  exit_zero exit_one : Parsed A

unfoldable pub scan_arp : List ArpLine → Options → Parsed Options
scan_arp [] o = parsed o
scan_arp (no_match ∷ ls) o = exit_zero
scan_arp (other ∷ ls) o = scan_arp ls o
scan_arp (entry w0 w1 w2 w3 w4 w5 ∷ ls) o =
    parsed (record o { dst_mac = convert_mac_addr_str_to_uint w0 w1 w2 w3 w4 w5 })

-- The test that is meant to refuse a location: `strcmp` is 0 for equal strings.
unfoldable pub location_refused : String → Bool
location_refused l = not (not (str_eq l host_mem) || not (str_eq l device_mem))

unfoldable pub parse_option : Opt → Options → Parsed Options
unfolding scan_arp location_refused
parse_option (src_ip s a b c d) o =
    parsed (record o { src_ip = convert_ip_addr_to_uint a b c d; src_ip_str = s })
parse_option (dst_ip a b c d none) o = exit_one
parse_option (dst_ip a b c d (some ls)) o =
    scan_arp ls (record o { dst_ip = convert_ip_addr_to_uint a b c d })
parse_option (udp_sport n) o = parsed (record o { udp_sport = u16 n })
parse_option (tcp_sport n) o = parsed (record o { tcp_sport = u16 n })
parse_option (dst_qp n) o = parsed (record o { dst_qpid = u32 n })
parse_option (payload_size n) o = parsed (record o { payload_size = u32 n })
parse_option (batch_size n) o = parsed (record o { wqe_count = u32 n })
parse_option (qp_location l) o =
    if location_refused l then exit_zero else parsed (record o { qp_location = l })
parse_option server o = parsed (record o { server = true; client = false })
parse_option client o = parsed (record o { server = false; client = true })
parse_option help o = exit_zero
parse_option unknown o = exit_zero

unfoldable pub parse_options : List Opt → Options → Parsed Options
unfolding parse_option
parse_options [] o = parsed o
parse_options (x ∷ xs) o = elim (parse_option x o) [
  | parsed o' ↦ parse_options xs o'
  | exit_zero ↦ exit_zero
  | exit_one ↦ exit_one
]

-- What the system and the user give to a program. `received`: the words that the reads of the socket
-- give, `none` where one gives nothing. `keys`: what is typed. `dst_mac_at`: where the variable
-- `dst_mac` is. `garbage n`: what the last `n` bytes of fresh memory hold.
pub record Shell : Type 0 where
  pub interfaces : Option (List (Option IfAddr))
  pub open_device_fails : Bool
  pub received : List (Option ℕ)
  pub keys : List ℕ
  pub dst_mac_at : Ptr
  pub garbage : ℕ → List ℕ

-- What `main` returns: 0, -1 or -EINVAL.
pub data Status : Type 0 where
  done no_peer invalid : Status

-- The objects that a program works with, by the names of its variables.
pub record Objects : Type 0 where
  pub rn_dev : Ptr
  pub rdma_dev : Ptr
  pub rdma_pd : Ptr
  pub cidb_buffer : Ptr
  pub data_buf : Ptr
  pub ipkterr_buf : Ptr
  pub err_buf : Ptr
  pub resp_err_pkt_buf : Ptr

module _ (env : Env) (shell : Shell) (o : Options) where
  -- Steps 1 to 5 of the program: the device, its buffers, the engine and a protection domain.
  unfoldable pub open_device : Cmd Objects
  open_device = do
    modify
        (λ m. record m { macs = λ p. if shell.dst_mac_at == p then some o.dst_mac else m.macs p })
    src_mac ← get_mac_addr_from_str_ip shell.interfaces o.src_ip_str
    created ← create_rn_dev env preallocated_hugepages 8
    rdma_dev ← create_rdma_dev env created.0
    cidb_buffer ← allocate_rdma_buffer env created.0 (2 ^ 21) host_mem
    data_buf ← allocate_rdma_buffer env created.0 (4096 * 4096) host_mem
    ipkterr_buf ← allocate_rdma_buffer env created.0 8192 host_mem
    err_buf ← allocate_rdma_buffer env created.0 (256 * 256) host_mem
    resp_err_pkt_buf ← allocate_rdma_buffer env created.0 65536 host_mem
    payload ← deref (λ m. m.buffs) data_buf
    ipkterr ← deref (λ m. m.buffs) ipkterr_buf
    err ← deref (λ m. m.buffs) err_buf
    resp ← deref (λ m. m.buffs) resp_err_pkt_buf
    open_rdma_dev rdma_dev src_mac o.src_ip o.udp_sport (record {
      num_data_buf = 4096;
      per_data_buf_size = 4096;
      data_buf_baseaddr = payload.dma_addr;
      ipkt_err_stat_q_size = 8192;
      ipkt_err_stat_q_baseaddr = ipkterr.dma_addr;
      num_err_buf = 256;
      per_err_buf_size = 256;
      err_buf_baseaddr = err.dma_addr;
      resp_err_pkt_buf_size = 65536;
      resp_err_pkt_buf_baseaddr = resp.dma_addr;
    })
    rdma_pd ← allocate_rdma_pd env rdma_dev 0
    pure (record {
      rn_dev = created.0;
      rdma_dev = rdma_dev;
      rdma_pd = rdma_pd;
      cidb_buffer = cidb_buffer;
      data_buf = data_buf;
      ipkterr_buf = ipkterr_buf;
      err_buf = err_buf;
      resp_err_pkt_buf = resp_err_pkt_buf;
    })

  -- Steps 6 and 7: queue pair 2, with a depth of 64, and its sequence numbers.
  unfoldable pub open_queue_pair : Objects → Cmd (Unit {0})
  open_queue_pair b = do
    cidb ← deref (λ m. m.buffs) b.cidb_buffer
    qp ← allocate_rdma_qp env b.rdma_dev o.qp_location (record {
      qpid = 2;
      dst_qpid = o.dst_qpid;
      pd_entry = b.rdma_pd;
      cq_cidb_addr = cidb.dma_addr;
      rq_cidb_addr = u64 (cidb.dma_addr + 8 * 4);
      qdepth = 64;
      dst_mac = shell.dst_mac_at;
      dst_ip = o.dst_ip;
      partion_key = p_key;
    })
    config_last_rq_psn b.rdma_dev 2 0xabc
    config_sq_psn b.rdma_dev 2 (0xabc + 1)

-- The payload in the host's memory: words that count from 0 to 9, and up to three bytes that are
-- not set.
unfoldable pub golden : Shell → (size : ℕ) → List ℕ
golden shell size = int_bytes (test_data (size / 4) 0) ++ shell.garbage (size % 4)

unfoldable pub make_golden : Env → Shell → (size : ℕ) → Cmd (List ℕ)
unfolding golden
make_golden env shell size = do
  sw_golden ← malloc env
  when (ltb 0 (size / 4)) (not_null sw_golden)
  pure (golden shell size)

-- `htonll`: the bytes of a 64-bit word in the other order. `ntohll` is the same.
unfoldable pub htonll : ℕ → ℕ
htonll x =
    x / 2 ^ 56 % 256
    + 2 ^ 8 * (x / 2 ^ 48 % 256)
    + 2 ^ 16 * (x / 2 ^ 40 % 256)
    + 2 ^ 24 * (x / 2 ^ 32 % 256)
    + 2 ^ 32 * (x / 2 ^ 24 % 256)
    + 2 ^ 40 * (x / 2 ^ 16 % 256)
    + 2 ^ 48 * (x / 2 ^ 8 % 256)
    + 2 ^ 56 * (x % 256)

-- Waiting for a line to be ended. The end of the input is never one, so that the loop goes on.
unfoldable pub wait_key : List ℕ → Cmd (Unit {0})
wait_key [] = λ m. out_of_fuel m
wait_key (c ∷ cs) = let rest = wait_key cs in if c == 13 || c == 10 then pure tt else rest

-- Behind the label `out`. `fuel` bounds the waits in the destruction of the queue pairs.
unfoldable pub clean_up : Env → (fuel : ℕ) → Objects → Cmd Status
clean_up env fuel b = do
  free_buff b.cidb_buffer
  free_buff b.data_buf
  free_buff b.ipkterr_buf
  free_buff b.err_buf
  free_buff b.resp_err_pkt_buf
  rc ← destroy_rn_dev env fuel b.rn_dev
  pure done
