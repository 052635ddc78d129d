-- ===== src/Tests/Address.antt =====
-- A test of the command that the compute kernel is given.
use reco_nic.Prelude.{◌≡◌, arith, some, [], take, drop}
use reco_nic.Machine.{Machine, ret}
use reco_nic.Control.{CtlCmd, issue_ctl_cmd}
use reco_nic.Control.Laws.{issue_ctl_cmd-decode, decode, written_at}
use reco_nic.Tests.{machine}

abbrev command : CtlCmd
command = record {
  ctl_cmd_size = 5;
  a_baseaddr = 0x1000;
  b_baseaddr = 0x2000;
  c_baseaddr = 0x3000;
  a_row = 16;
  a_col = 32;
  b_col = 8;
  work_id = 0xabcd;
}

issue_ctl_cmd-decode_example :
    (m' : Machine) × (issue_ctl_cmd 0x1000 0x40 command (machine 0x10000) ≡ ret tt m')
    × (decode (take 6 (written_at 0x1040 m'.bus)) ≡ some command)
    × (drop 6 m'.bus ≡ [])
issue_ctl_cmd-decode_example = issue_ctl_cmd-decode 0x1000 0x40 command (machine 0x10000) (record {
  ctl_cmd_size = omega arith;
  a_baseaddr = omega arith;
  b_baseaddr = omega arith;
  c_baseaddr = omega arith;
  a_row = omega arith;
  a_col = omega arith;
  b_col = omega arith;
  work_id = omega arith;
})
