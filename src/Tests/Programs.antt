-- ===== src/Tests/Programs.antt =====
-- Tests of the RDMA test programs: both sides of write.c behind their setup, and the checks of the
-- data.
use reco_nic.Prelude.{Bool, ◌↔◌, ℕ, ◌≡◌, refl, some, none, List, [], ◌∷◌, true, false, arith}
use reco_nic.Machine.{Machine, RdmaDev, ret, update}
use reco_nic.Memory.Content.{store}
use reco_nic.Memory.Device.{replay}
use reco_nic.Registers.{rnic_op_write}
use reco_nic.Rdma.Pd.Laws.{Grants}
use reco_nic.Rdma.Wqe.Laws.{HasQueue}
use reco_nic.Reconic.Address.{is_device_address}
use reco_nic.Reconic.Buffer.{host_mem, start_offset}
use reco_nic.Examples.Rdma.Setup.{Options, Shell, Objects, r_key, htonll}
use reco_nic.Examples.Rdma.Write.{write_client, write_server_offer, write_server_check}
use reco_nic.Examples.Rdma.Read.{read_client_check}
use reco_nic.Examples.Rdma.Check.{SameWords, held, checks-Judged}
use reco_nic.Examples.Rdma.Client.{HandedOver, transfer}
use reco_nic.Examples.Rdma.WriteLaws.{IsSetUp}
use reco_nic.Examples.Rdma.Handshake.{IsServer, offered, write_handshake}
use reco_nic.Tests.{
  card, card-IsRegular, zeros, machine, rdma_device, rn_device, domain, queue_pair, buffer_at, peer,
}

-- Queue pair 2 in the place of the one that the other tests have.
abbrev pub device : RdmaDev
device = record rdma_device { qps_ptr = 0 ∷ 0 ∷ 2 ∷ [] }

abbrev pub m0 : Machine
m0 = record (machine 0x10000) { rdma_devs = update (machine 0x10000).rdma_devs 1 (some device) }

abbrev pub payload : List ℕ
payload = 1 ∷ 0 ∷ 0 ∷ 0 ∷ []

abbrev pub options : Options
options = record {
  src_ip = 0x0a000001;
  src_ip_str = "10.0.0.1";
  dst_ip = 0x0a000002;
  dst_mac = peer;
  tcp_sport = 11111;
  udp_sport = 22222;
  dst_qpid = 2;
  payload_size = 4;
  wqe_count = 1;
  qp_location = host_mem;
  server = false;
  client = true;
}

abbrev pub shell : Shell
shell = record {
  interfaces = none;
  open_device_fails = false;
  received = [];
  keys = [];
  dst_mac_at = 8;
  garbage = λ n. [];
}

abbrev pub objects : Objects
objects = record {
  rn_dev = 9;
  rdma_dev = 1;
  rdma_pd = 6;
  cidb_buffer = 4;
  data_buf = 5;
  ipkterr_buf = 5;
  err_buf = 5;
  resp_err_pkt_buf = 5;
}

abbrev pub m0-HasQueue : HasQueue m0 1 2 (buffer_at 0x10000)
m0-HasQueue = record {
  d = device;
  qp = 2;
  q = queue_pair;
  at_dev = refl;
  at_window = refl;
  at_pointer = refl;
  at_qp = refl;
  at_sq = refl;
}

unfoldable pub m0-IsSetUp : IsSetUp m0 objects 4 (buffer_at 0x10000)
unfolding is_device_address start_offset
m0-IsSetUp = record {
  rn = rn_device;
  at_rn = refl;
  points = refl;
  low = omega arith;
  small = omega arith;
  room = omega arith;
  fresh = omega arith;
  queue = m0-HasQueue;
  old = omega arith;
  real = omega arith;
  host = refl;
  at = omega arith;
  fits = omega arith;
}

unfoldable pub m0-IsServer : IsServer m0 objects 4
unfolding start_offset
m0-IsServer = record {
  rn = rn_device;
  at_rn = refl;
  points = refl;
  low = omega arith;
  small = omega arith;
  room = omega arith;
  fresh = omega arith;
  real = omega arith;
  d = device;
  at_dev = refl;
  at_window = refl;
  mapped = omega arith;
  real_pd = omega arith;
  pd = domain;
  at_pd = refl;
  pd_num = omega arith;
  access = refl;
}

-- The place of the payload on the card.
abbrev pub place : ℕ
place = 0xa350000000000064

write_handshake_example :
    (tmp_buffer raw : ℕ) × (s' c' : Machine) × (write_server_offer
        (card 0)
        shell
        options
        objects
        payload
        m0
      ≡ ret (tmp_buffer, raw) s')
    × Grants 0x1000 s'.bus 5 r_key (offered m0-IsServer)
    × (write_client (card 0) shell options objects payload (htonll raw) m0 ≡ ret true c')
    × ((replay zeros c'.file).content ≡ store zeros 100 payload)
    × HandedOver m0 c' 0x1000 0 0x10000
        (transfer place 4 rnic_op_write (offered m0-IsServer).buffer r_key)
unfolding start_offset m0-IsSetUp m0-IsServer
write_handshake_example =
    write_handshake (card 0) (card 0) zeros shell shell options options objects objects payload
      (buffer_at 0x10000) m0 m0 (λ n. refl) (λ n. refl) card-IsRegular m0-IsServer m0-IsSetUp refl

-- The buffer at 3 is in the host's memory, which holds zeros, and the payload's first word is 1.
checks-Judged_example :
    ((v : Bool) × (m' : Machine) × (write_server_check (card 0) shell options objects payload 3 m0
        ≡ ret v m')
      × ((v ≡ true)
          ↔ SameWords 1 0 (held (card 0) zeros card-IsRegular m0 (buffer_at 0x10000) 4) payload))
    × ((v : Bool) × (m' : Machine) × (read_client_check (card 0) shell options objects payload 3 m0
          ≡ ret v m')
        × ((v ≡ true)
            ↔ SameWords 1 0 (held (card 0) zeros card-IsRegular m0 (buffer_at 0x10000) 4) payload))
checks-Judged_example =
    checks-Judged (card 0) zeros card-IsRegular shell options objects payload m0 3
      (buffer_at 0x10000) rn_device device refl refl refl refl
