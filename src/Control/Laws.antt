-- ===== src/Control/Laws.antt =====
-- Commands reach the kernel as they were generated; waiting ends with the first answer.
use reco_nic.Prelude.{
  ℕ, zero, suc, ◌+◌, ◌*◌, ◌/◌, ◌%◌, ◌^◌, ◌<◌, ◌≡◌, ◌≢◌, refl, List, [], ◌∷◌, Option, none, some,
  bit_and, bit_or, arith, u32, shl32, ◌==◌, if◌then◌else◌, take, drop,
}
use reco_nic.Bits.{and_low, and_field, or_field}
use reco_nic.Machine.{Machine, Env, Access, read, write, ret}
use reco_nic.Machine.Poll.{after_reads, nth_read}
use reco_nic.Control.{CtlCmd, issue_ctl_cmd, wait_compute}

-- The fields have the widths of `ctl_cmd_t`.
pub record IsCommand (c : CtlCmd) : Type 0 where
  pub ctl_cmd_size : c.ctl_cmd_size < 2 ^ 32
  pub a_baseaddr : c.a_baseaddr < 2 ^ 32
  pub b_baseaddr : c.b_baseaddr < 2 ^ 32
  pub c_baseaddr : c.c_baseaddr < 2 ^ 32
  pub a_row : c.a_row < 2 ^ 16
  pub a_col : c.a_col < 2 ^ 16
  pub b_col : c.b_col < 2 ^ 16
  pub work_id : c.work_id < 2 ^ 16

-- The words written to `a`, newest first.
abbrev pub written_at : ℕ → List Access → List ℕ
written_at a [] = []
written_at a (read b v ∷ t) = written_at a t
written_at a (write b v ∷ t) = let rest = written_at a t in if b == a then v ∷ rest else rest

-- The command that six words make, the last of them first: what the command processor takes them
-- for.
abbrev pub decode : List ℕ → Option CtlCmd
decode (v ∷ w ∷ r ∷ q ∷ p ∷ s ∷ []) = some (record {
  ctl_cmd_size = s;
  a_baseaddr = p;
  b_baseaddr = q;
  c_baseaddr = r;
  a_row = w / 2 ^ 16;
  a_col = w % 2 ^ 16;
  b_col = v / 2 ^ 16;
  work_id = v % 2 ^ 16;
})
decode _ = none

pack_word :
    (hi lo : ℕ)
    → hi < 2 ^ 16
    → lo < 2 ^ 16
    → bit_or (bit_and (shl32 hi 16) 0xffff0000) (bit_and lo 0x0000ffff) ≡ hi * 2 ^ 16 + lo
pack_word hi lo p q =
    ground (arith, and_field 16 16 (shl32 hi 16), and_low 16 lo, or_field 16 hi lo q)

abbrev pub command_words : ℕ → CtlCmd → List Access → List Access
command_words a c t =
    write a (u32 (bit_or (bit_and (shl32 c.b_col 16) 0xffff0000) (bit_and c.work_id 0x0000ffff)))
    ∷ write a (u32 (bit_or (bit_and (shl32 c.a_row 16) 0xffff0000) (bit_and c.a_col 0x0000ffff)))
    ∷ write a (u32 c.c_baseaddr)
    ∷ write a (u32 c.b_baseaddr)
    ∷ write a (u32 c.a_baseaddr)
    ∷ write a (u32 c.ctl_cmd_size)
    ∷ t

pub decode-command_words :
    (a : ℕ) (c : CtlCmd) (t : List Access)
    → IsCommand c
    → decode (take 6 (written_at a (command_words a c t))) ≡ some c
decode-command_words a c t h = ground (
  arith,
  pack_word c.a_row c.a_col h.a_row h.a_col,
  pack_word c.b_col c.work_id h.b_col h.work_id,
)

-- A command whose fields fit their types reaches the kernel as it is: `issue_ctl_cmd` writes six
-- words to the command register, nothing else is accessed, and the six words decode to the command.
pub issue_ctl_cmd-decode :
    (base offset : ℕ) (c : CtlCmd) (m : Machine)
    → IsCommand c
    → (m' : Machine) × (issue_ctl_cmd base offset c m ≡ ret tt m')
      × (decode (take 6 (written_at (base + offset) m'.bus)) ≡ some c)
      × (drop 6 m'.bus ≡ m.bus)
unfolding issue_ctl_cmd
issue_ctl_cmd-decode base offset c m h = (
  record m { bus = command_words (base + offset) c m.bus },
  refl,
  decode-command_words (base + offset) c m.bus h,
  refl,
)

-- `wait_compute` returns the first answer that is not 0, after as many reads as it takes, and does
-- nothing else.
pub wait_compute-first :
    (env : Env) (fuel n base offset : ℕ) (m : Machine)
    → ((i : ℕ) → i < n → nth_read env.hardware (base + offset) i m.bus ≡ 0)
    → nth_read env.hardware (base + offset) n m.bus ≢ 0
    → n < fuel
    → wait_compute env fuel base offset m
      ≡ ret
          (nth_read env.hardware (base + offset) n m.bus)
          (record m { bus = after_reads env.hardware (base + offset) (suc n) m.bus })
unfolding wait_compute
wait_compute-first env zero n base offset m zeros done h = absurd (omega arith)
wait_compute-first env (suc fuel) zero base offset m zeros done h = ground arith
wait_compute-first env (suc fuel) (suc n) base offset m zeros done h = ground (
  arith,
  zeros 0 (omega arith),
  wait_compute-first env fuel n base offset
      (record m { bus = after_reads env.hardware (base + offset) 1 m.bus })
      (λ i p. zeros (suc i) (omega arith)) done (omega arith),
)
