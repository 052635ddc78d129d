-- ===== src/Reconic/Bdf/Laws.antt =====
-- The windows lie side by side and cover the terabyte of the host's buffer.
use reco_nic.Prelude.{
  ℕ, zero, suc, ◌+◌, ◌*◌, ◌/◌, ◌%◌, ◌^◌, ◌≤◌, ◌<◌, ◌≡◌, ◌≢◌, refl, List, ◌∷◌, some, ◌⊎◌, inl, inr,
  Bool-cases, ◌∙◌, false, arith, bit_and, ◌==◌, u32,
}
use reco_nic.Bits.{and_low, and_field}
use reco_nic.Machine.{Machine, Ptr, RnDev, WinSize, Access, write, ret, update, deref}
use reco_nic.Machine.Trace.{last_write}
use reco_nic.Registers.{
  axib_bdf_addr_translate_addr_lsb, axib_bdf_addr_translate_addr_msb, axib_bdf_map_control_addr,
  axib_bdf_pasid_reserved_addr, axib_bdf_function_num_addr, axib_bdf_reserved_addr,
}
use reco_nic.Reconic.Address.Laws.{bar_window}
use reco_nic.Reconic.Bdf.{config_rn_dev_axib_bdf, config_windows}

-- The bridge's register `r` of window `i`.
abbrev pub window_register : (axil_ctl r i : ℕ) → ℕ
window_register axil_ctl r i = axil_ctl + (r + i * 0x20)

-- What the trace has programmed for window `i`: its first host address, its size, and 0 in the
-- three registers that are not used.
abbrev pub WindowAt : ℕ → List Access → (i base size : ℕ) → Type 0
WindowAt axil_ctl t i base size =
    (last_write t (window_register axil_ctl axib_bdf_addr_translate_addr_lsb i)
      ≡ some (base % 2 ^ 32))
    × (last_write t (window_register axil_ctl axib_bdf_addr_translate_addr_msb i)
        ≡ some (base / 2 ^ 32))
    × (last_write t (window_register axil_ctl axib_bdf_map_control_addr i)
        ≡ some (0xC0000000 + size / 4096))
    × (last_write t (window_register axil_ctl axib_bdf_pasid_reserved_addr i) ≡ some 0)
    × (last_write t (window_register axil_ctl axib_bdf_function_num_addr i) ≡ some 0)
    × (last_write t (window_register axil_ctl axib_bdf_reserved_addr i) ≡ some 0)

-- An address outside the registers of the eight windows.
abbrev pub OutsideWindows : (axil_ctl a : ℕ) → Type 0
OutsideWindows axil_ctl a =
    (a < window_register axil_ctl axib_bdf_addr_translate_addr_lsb 0)
    ⊎ (window_register axil_ctl axib_bdf_addr_translate_addr_lsb 8 ≤ a)

module _ (axil_ctl low high config : ℕ) where
  abbrev one_window : ℕ → List Access → List Access
  one_window i t =
      write (axil_ctl + (axib_bdf_reserved_addr + i * 0x20)) 0
      ∷ write (axil_ctl + (axib_bdf_map_control_addr + i * 0x20)) (u32 config)
      ∷ write (axil_ctl + (axib_bdf_function_num_addr + i * 0x20)) 0
      ∷ write (axil_ctl + (axib_bdf_pasid_reserved_addr + i * 0x20)) 0
      ∷ write (axil_ctl + (axib_bdf_addr_translate_addr_msb + i * 0x20))
          (u32 (u32 (high + i * 0x20)))
      ∷ write (axil_ctl + (axib_bdf_addr_translate_addr_lsb + i * 0x20)) (u32 low)
      ∷ t

  windows : ℕ → ℕ → List Access → List Access
  windows zero i t = t
  windows (suc rounds) i t = windows rounds (i + 1) (one_window i t)

  config_windows-windows :
      (rounds i : ℕ) (m : Machine)
      → config_windows axil_ctl low high config rounds i m
        ≡ ret tt (record m { bus = windows rounds i m.bus })
  unfolding config_windows windows
  config_windows-windows zero i m = refl
  config_windows-windows (suc rounds) i m =
      config_windows-windows rounds (i + 1) (record m { bus = one_window i m.bus })

  -- A register below those of window `i` is not written by the windows from `i` on.
  last_write-windows_below :
      (rounds i a : ℕ) (t : List Access)
      → a < axil_ctl + (axib_bdf_addr_translate_addr_lsb + i * 0x20)
      → last_write (windows rounds i t) a ≡ last_write t a
  unfolding windows
  last_write-windows_below zero i a t h = refl
  last_write-windows_below (suc rounds) i a t h =
      last_write-windows_below rounds (i + 1) a (one_window i t) (omega arith) ∙ ground arith

  -- Nor is one behind the last of them.
  last_write-windows_above :
      (rounds i a : ℕ) (t : List Access)
      → axil_ctl + (axib_bdf_addr_translate_addr_lsb + (i + rounds) * 0x20) ≤ a
      → last_write (windows rounds i t) a ≡ last_write t a
  unfolding windows
  last_write-windows_above zero i a t h = refl
  last_write-windows_above (suc rounds) i a t h =
      last_write-windows_above rounds (i + 1) a (one_window i t) (omega arith) ∙ ground arith

  -- Window `j` ends up as programmed in its round.
  last_write-windows :
      (rounds i j : ℕ) (t : List Access)
      → i ≤ j
      → j < i + rounds
      → (last_write
            (windows rounds i t)
            (window_register axil_ctl axib_bdf_addr_translate_addr_lsb j)
          ≡ some (u32 low))
        × (last_write
              (windows rounds i t)
              (window_register axil_ctl axib_bdf_addr_translate_addr_msb j)
            ≡ some (u32 (high + j * 0x20)))
        × (last_write (windows rounds i t) (window_register axil_ctl axib_bdf_map_control_addr j)
            ≡ some (u32 config))
        × (last_write (windows rounds i t) (window_register axil_ctl axib_bdf_pasid_reserved_addr j)
            ≡ some 0)
        × (last_write (windows rounds i t) (window_register axil_ctl axib_bdf_function_num_addr j)
            ≡ some 0)
        × (last_write (windows rounds i t) (window_register axil_ctl axib_bdf_reserved_addr j)
            ≡ some 0)
  unfolding windows
  last_write-windows zero i j t p q = absurd (omega arith)
  last_write-windows (suc rounds) i j t p q = elim (Bool-cases (i == j)) [
    | inl e ↦
        let same : i ≡ j = ground arith in
        let below = λ (r : ℕ) (h : r < 0x20 + axib_bdf_addr_translate_addr_lsb).
          last_write-windows_below rounds (i + 1) (window_register axil_ctl r j) (one_window i t)
            (omega arith) in
        (
          below axib_bdf_addr_translate_addr_lsb (omega arith) ∙ ground arith,
          below axib_bdf_addr_translate_addr_msb (omega arith) ∙ ground arith,
          below axib_bdf_map_control_addr (omega arith) ∙ ground arith,
          below axib_bdf_pasid_reserved_addr (omega arith) ∙ ground arith,
          below axib_bdf_function_num_addr (omega arith) ∙ ground arith,
          below axib_bdf_reserved_addr (omega arith) ∙ ground arith,
        )
    | inr e ↦ last_write-windows rounds (i + 1) j (one_window i t) (ground arith) (omega arith)
  ]

pub config_rn_dev_axib_bdf-WindowAt :
    (m : Machine) (p : Ptr) (rn : RnDev) (old : WinSize) (d : ℕ)
    → p ≢ 0
    → m.rn_devs p ≡ some rn
    → m.win_sizes rn.win_size ≡ some old
    → d < 2 ^ 64
    → (m' : Machine) × (config_rn_dev_axib_bdf p (d / 2 ^ 32) (d % 2 ^ 32) m ≡ ret tt m')
      × (m'.win_sizes rn.win_size ≡ some bar_window)
      × ((i : ℕ)
          → i < 8
          → WindowAt rn.axil_ctl m'.bus i (d / 2 ^ 40 * 2 ^ 40 + i * 2 ^ 37) (2 ^ 37))
      × ((a : ℕ) → OutsideWindows rn.axil_ctl a → last_write m'.bus a ≡ last_write m.bus a)
      × (m'
          ≡ record m { bus = m'.bus; win_sizes = update m.win_sizes rn.win_size (some bar_window) })
unfolding config_rn_dev_axib_bdf
config_rn_dev_axib_bdf-WindowAt m p rn old d not_null at_p at_win fits =
    let some_dev : (p == 0) ≡ false = ground arith in
    let high : bit_and (d / 2 ^ 32) 0xffffff00 ≡ d / 2 ^ 40 * 256 =
      ground (arith, and_field 24 8 (d / 2 ^ 32)) in
    let low : bit_and (d % 2 ^ 32) 0 ≡ 0 = and_low 0 (d % 2 ^ 32) ∙ omega arith in
    let m1 = record m { win_sizes = update m.win_sizes rn.win_size (some bar_window) } in
    (
      record m1 { bus = windows rn.axil_ctl 0 (d / 2 ^ 40 * 256) 0xC2000000 8 0 m.bus },
      rw some_dev (
          rw (at_p, deref)
            (rw (at_win, deref)
              (rw (high, low)
                (config_windows-windows rn.axil_ctl 0 (d / 2 ^ 40 * 256) 0xC2000000 8 0 m1)))),
      ground arith,
      λ i h. ground (
        arith,
        last_write-windows rn.axil_ctl 0 (d / 2 ^ 40 * 256) 0xC2000000 8 0 i m.bus (omega arith)
            (omega arith),
      ),
      λ a outside. elim outside [
        | inl h ↦
            last_write-windows_below rn.axil_ctl 0 (d / 2 ^ 40 * 256) 0xC2000000 8 0 a m.bus
              (omega arith)
        | inr h ↦
            last_write-windows_above rn.axil_ctl 0 (d / 2 ^ 40 * 256) 0xC2000000 8 0 a m.bus
              (omega arith)
      ],
      refl,
    )
