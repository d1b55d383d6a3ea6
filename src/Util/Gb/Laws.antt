-- ===== src/Util/Gb/Laws.antt =====
-- What the conversions of pkg/util/gb.go compute, and where they overflow.
use cloudstack_csi_driver.Prelude.{refl, ℕ, ◌+◌, ◌*◌, ◌/◌, ◌^◌, ◌<◌, ◌≡◌, ◌∙◌, ap, arith, ◌-◌, ◌≤◌}
use cloudstack_csi_driver.Prelude.Int.{pos, negsuc}
use cloudstack_csi_driver.Util.Gb.{round_step, round_up_bytes_to_gb, giga_bytes_to_bytes}

-- The largest int64 that rounds up without overflow is 2^63 - 1024.
abbrev pub safe_bytes : ℕ
safe_bytes = 2 ^ 63 - 1023

round_step_pos : (n : ℕ) → n < 2 ^ 63 - 1023 → round_step (pos n) ≡ pos ((n + 1023) / 1024)
round_step_pos n h = ground arith

pub round_up_pos :
    (n : ℕ) → n < 2 ^ 63 - 1023 → round_up_bytes_to_gb (pos n) ≡ pos ((n + (2 ^ 30 - 1)) / 2 ^ 30)
unfolding round_up_bytes_to_gb
round_up_pos n h =
    ap (λ z. round_step (round_step z)) (round_step_pos n h)
    ∙ ap round_step (round_step_pos ((n + 1023) / 1024) (omega arith))
    ∙ round_step_pos (((n + 1023) / 1024 + 1023) / 1024) (omega arith)
    ∙ ap pos (omega arith)

pub giga_bytes_pos : (g : ℕ) → g < 2 ^ 33 → giga_bytes_to_bytes (pos g) ≡ pos (g * 2 ^ 30)
unfolding giga_bytes_to_bytes
giga_bytes_pos g h = ground arith

-- For a size from 0 to 2^63 - 1024 bytes the result is a number of GB that holds the size, and no
-- smaller number of GB does.
pub round_up_least :
    (n : ℕ)
    → n < safe_bytes
    → (g : ℕ) × (round_up_bytes_to_gb (pos n) ≡ pos g)
      × (n ≤ g * 2 ^ 30)
      × ((h : ℕ) → n ≤ h * 2 ^ 30 → g ≤ h)
round_up_least n h =
    ((n + (2 ^ 30 - 1)) / 2 ^ 30, round_up_pos n h, omega arith, λ k p. omega arith)

-- Below 2^33 GB a size converted to bytes and back is unchanged.
pub round_up-giga_bytes :
    (g : ℕ) → g < 2 ^ 33 → round_up_bytes_to_gb (giga_bytes_to_bytes (pos g)) ≡ pos g
round_up-giga_bytes g h =
    ap round_up_bytes_to_gb (giga_bytes_pos g h)
    ∙ round_up_pos (g * 2 ^ 30) (omega arith)
    ∙ ap pos (omega arith)

-- Every size of more than 2^63 - 2^30 bytes that rounds up without overflow rounds up to 2^33 GB,
-- which converts back to the negative number -2^63.
pub giga_bytes_overflow :
    (n : ℕ)
    → 2 ^ 63 - 2 ^ 30 < n
    → n < safe_bytes
    → giga_bytes_to_bytes (round_up_bytes_to_gb (pos n)) ≡ negsuc (2 ^ 63 - 1)
unfolding giga_bytes_to_bytes
giga_bytes_overflow n lo hi =
    ap giga_bytes_to_bytes (round_up_pos n hi ∙ ap pos {y = 2 ^ 33} (omega arith)) ∙ giga_bytes_top
  where
    giga_bytes_top : giga_bytes_to_bytes (pos (2 ^ 33)) ≡ negsuc (2 ^ 63 - 1)
    giga_bytes_top = refl
