-- ===== src/Driver/Sizes/Laws.antt =====
-- The size that a volume is created with.
use cloudstack_csi_driver.Prelude.{
  ℕ, ◌+◌, ◌-◌, ◌*◌, ◌/◌, ◌^◌, ◌≤◌, ◌≡◌, none, some, ◌&&◌, if◌then◌else◌, arith, ◌==◌, Bool-cases,
  inl, inr, ◌<◌, ◌⊎◌, false, true, ◌∙◌, ap,
}
use cloudstack_csi_driver.Prelude.Int.{pos, ltb_ℤ, ◌≤ℤ◌}
use cloudstack_csi_driver.Util.Gb.Laws.{
  round_up_pos, giga_bytes_pos, safe_bytes, giga_bytes_overflow,
}
use cloudstack_csi_driver.Driver.Csi.{CapacityRange}
use cloudstack_csi_driver.Driver.Sizes.{determine_size, ℤ, Bool, round_up_bytes_to_gb}

-- The least number of GB that is not zero and holds `n` bytes.
abbrev pub least_gb : ℕ → ℕ
least_gb n = if n == 0 then 1 else (n + (2 ^ 30 - 1)) / 2 ^ 30

pub determine_size_pos :
    (range : CapacityRange) (n : ℕ)
    → range.required_bytes ≡ pos n
    → n ≤ 2 ^ 63 - 2 ^ 30
    → determine_size (some range) ≡ (
        if ltb_ℤ (pos 0) range.limit_bytes && ltb_ℤ range.limit_bytes (pos (least_gb n * 2 ^ 30))
        then none
        else some (pos (least_gb n)))
unfolding determine_size
determine_size_pos range n e small =
    ground (arith, round_up_pos n, giga_bytes_pos ((n + (2 ^ 30 - 1)) / 2 ^ 30), giga_bytes_pos 1)

-- A size in GB fits a range if it is at least 1, holds the required bytes, and does not pass the
-- limit where one is given.
pub record Fits (n : ℕ) (limit : ℤ) (g : ℕ) : Type 0 where
  pub positive : 1 ≤ g
  pub holds : n ≤ g * 2 ^ 30
  pub limited : (limit ≤ℤ pos 0) ⊎ (pos (g * 2 ^ 30) ≤ℤ limit)

abbrev over_limit : ℕ → ℤ → Bool
over_limit n limit = ltb_ℤ (pos 0) limit && ltb_ℤ limit (pos (least_gb n * 2 ^ 30))

pub least_gb_lem : (n : ℕ) → (1 ≤ least_gb n) × (n ≤ least_gb n * 2 ^ 30)
least_gb_lem n = ground arith

pub least_gb_least : (n h : ℕ) → 1 ≤ h → n ≤ h * 2 ^ 30 → least_gb n ≤ h
least_gb_least n h p q = ground arith

Fits-least_gb : (n : ℕ) (limit : ℤ) → over_limit n limit ≡ false → Fits n limit (least_gb n)
Fits-least_gb n limit e = record {
  positive = (least_gb_lem n).0;
  holds = (least_gb_lem n).1;
  limited = ground arith;
}

not-Fits : (n : ℕ) (limit : ℤ) → over_limit n limit ≡ true → (h : ℕ) → ¬ Fits n limit h
not-Fits n limit e h f = ground (arith, least_gb_least n h f.positive f.holds)

-- For a range that requires `n` bytes, from 0 to 2^63 - 2^30, the result is the least size that
-- fits, and an error only if no size fits.
pub determine_size_least :
    (range : CapacityRange) (n : ℕ)
    → range.required_bytes ≡ pos n
    → n ≤ 2 ^ 63 - 2 ^ 30
    → ((g : ℕ) × (determine_size (some range) ≡ some (pos g))
        × Fits n range.limit_bytes g
        × ((h : ℕ) → Fits n range.limit_bytes h → g ≤ h))
      ⊎ ((determine_size (some range) ≡ none) × ((h : ℕ) → ¬ Fits n range.limit_bytes h))
determine_size_least range n e small = elim (Bool-cases (over_limit n range.limit_bytes)) [
  | inl over ↦ inr (determine_size_pos range n e small ∙ rw over, not-Fits n range.limit_bytes over)
  | inr under ↦ inl (
    least_gb n,
    determine_size_pos range n e small ∙ rw under,
    Fits-least_gb n range.limit_bytes under,
    λ h f. least_gb_least n h f.positive f.holds,
  )
]

-- Every range that requires more than 2^63 - 2^30 bytes, up to 2^63 - 1024, gets a size of 2^33 GB,
-- however small its limit is: in the check of the limit that size overflows to a negative number of
-- bytes.
pub determine_size_overflow :
    (range : CapacityRange) (n : ℕ)
    → range.required_bytes ≡ pos n
    → 2 ^ 63 - 2 ^ 30 < n
    → n < safe_bytes
    → determine_size (some range) ≡ some (pos (2 ^ 33))
unfolding determine_size
determine_size_overflow range n e lo hi =
    let top : round_up_bytes_to_gb (pos n) ≡ pos (2 ^ 33) =
      round_up_pos n hi ∙ ap pos {y = 2 ^ 33} (omega arith) in
    ground (arith, top, giga_bytes_overflow n lo hi)
