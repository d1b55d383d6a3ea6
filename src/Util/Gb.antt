-- ===== src/Util/Gb.antt =====
-- pkg/util/gb.go, over int64 with its wrap-around.
pub mod Laws
use cloudstack_csi_driver.Prelude.Int.{ℤ, pos, add64, mul64, quot64}

abbrev round_step : ℤ → ℤ
round_step n = quot64 (add64 n (pos 1023)) 1024

unfoldable pub round_up_bytes_to_gb : ℤ → ℤ
round_up_bytes_to_gb n = round_step (round_step (round_step n))

unfoldable pub giga_bytes_to_bytes : ℤ → ℤ
giga_bytes_to_bytes gb = mul64 (mul64 (mul64 gb 1024) 1024) 1024
