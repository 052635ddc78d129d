-- ===== src/Examples/Rdma/Location.antt =====
-- examples/rdma_test: the test on the option for the location of the queues.
use text.Mathlib.Text.{◌==◌ as str_eq}
use text.Mathlib.TextEquality.{eq_iff}
use Prim.Native.String.{String}
use reco_nic.Prelude.{
  ℕ, ◌+◌, ◌≡◌, ◌≢◌, ◌⊎◌, refl, sym, ◌∙◌, inl, inr, true, false, Bool-cases, ◌==◌, arith,
}
use reco_nic.Machine.{Machine, Env, exit_failure}
use reco_nic.Reconic.Buffer.{host_mem, device_mem, allocate_rdma_buffer}
use reco_nic.Examples.Rdma.Setup.{Options, parsed, qp_location, location_refused, parse_option}

not_both : (l : String) → str_eq l host_mem ≡ true → str_eq l device_mem ≡ false
not_both l h = elim (Bool-cases (str_eq l device_mem)) [
  | inl d ↦
      let same : host_mem ≡ device_mem =
        sym ((eq_iff l host_mem).0 h) ∙ (eq_iff l device_mem).0 d in
      absurd (cc ((eq_iff host_mem device_mem).1 same))
  | inr d ↦ d
]

never_refused : (l : String) → location_refused l ≡ false
unfolding location_refused
never_refused l = elim (Bool-cases (str_eq l host_mem)) [
  | inl h ↦ rw h (rw (not_both l h) refl)
  | inr h ↦ rw h refl
]

-- No location is refused: whatever the text is, the option takes it. If it is neither of the two
-- that the library knows, the first buffer that is allocated there ends the program with a failure,
-- where there is memory for its object.
pub parse_option-location :
    (l : String) (o : Options) (env : Env) (rn_dev size : ℕ) (m : Machine)
    → env.malloc_fails m.next ≡ false
    → m.next ≢ 0
    → (parse_option (qp_location l) o ≡ parsed (record o { qp_location = l }))
      × (((l ≡ host_mem) ⊎ (l ≡ device_mem))
          ⊎ (allocate_rdma_buffer env rn_dev size l m
              ≡ exit_failure (record m { next = m.next + 1 })))
unfolding parse_option allocate_rdma_buffer
parse_option-location l o env rn_dev size m memory real =
    let fresh : (m.next == 0) ≡ false = ground arith in
    (
      rw (never_refused l) refl,
      elim (Bool-cases (str_eq l host_mem)) [
        | inl h ↦ inl (inl ((eq_iff l host_mem).0 h))
        | inr not_host ↦ elim (Bool-cases (str_eq l device_mem)) [
          | inl d ↦ inl (inr ((eq_iff l device_mem).0 d))
          | inr not_card ↦ inr (rw (memory, fresh) (rw not_host (rw not_card refl)))
        ]
      ],
    )
