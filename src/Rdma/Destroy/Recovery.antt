-- ===== src/Rdma/Destroy/Recovery.antt =====
-- lib/rdma_api.c, `rdma_qp_fatal_recovery`: both waits end, and the queue pair ends up marked.
use reco_nic.Prelude.{ℕ, suc, ◌≤◌, ◌<◌, ◌≡◌, ◌≢◌, List, ◌∷◌, ◌⊎◌, bit_and, bit_or, u32}
use reco_nic.Machine.{Machine, Env, Access, read, write, ret, exit_failure, Outcome}
use reco_nic.Rdma.Destroy.{heads_threshold}
use reco_nic.Rdma.Destroy.Waits.{conf_at, after_rounds, nth_head, nth_index}

-- How a recovery ends from the trace `t` behind the first wait.
abbrev pub RecoveryEnds :
    Env → (axil_ctl qpid : ℕ) → Machine → List Access → Outcome (Unit {0}) → Type 0
RecoveryEnds env axil_ctl qpid m t result =
    (((i : ℕ)
        → i < suc heads_threshold
        → nth_head env axil_ctl qpid i t ≢ nth_index env axil_ctl qpid i t)
      × (result
          ≡ exit_failure
              (record m { bus = after_rounds env axil_ctl qpid (suc (suc heads_threshold)) t })))
    ⊎ ((j : ℕ) × (j ≤ heads_threshold)
        × ((i : ℕ) → i < j → nth_head env axil_ctl qpid i t ≢ nth_index env axil_ctl qpid i t)
        × (nth_head env axil_ctl qpid j t ≡ nth_index env axil_ctl qpid j t)
        × (v : ℕ) × (w : ℕ) × (x : ℕ) × (result
            ≡ ret tt (record m {
              bus =
                  read (conf_at axil_ctl qpid) x
                  ∷ write (conf_at axil_ctl qpid) (u32 (bit_or w 0x40))
                  ∷ read (conf_at axil_ctl qpid) w
                  ∷ write (conf_at axil_ctl qpid) (u32 (bit_and v 0xfffffffe))
                  ∷ read (conf_at axil_ctl qpid) v
                  ∷ after_rounds env axil_ctl qpid (suc j) t;
            })))
