-- ===== src/Mount/Files/Laws.antt =====
-- The statistics of a file system, and files and directories that exist.
use native.Mathlib.Nat.{mul-le-mul_right}
use cloudstack_csi_driver.Prelude.{ℕ, ◌<◌, ◌≤◌, ◌-◌, ◌*◌, ◌^◌, ◌≡◌, arith}
use cloudstack_csi_driver.Prelude.Int.{pos, signed64, times64, sub64}
use cloudstack_csi_driver.Mount.Os.{Statfs}
use cloudstack_csi_driver.Mount.Files.{statistics_of}

-- A file system whose counts agree and whose size fits.
pub record IsSane (f : Statfs) (block_size : ℕ) : Type 0 where
  pub size : f.bsize ≡ pos block_size
  pub available : f.bavail ≤ f.bfree
  pub free : f.bfree ≤ f.blocks
  pub blocks : f.blocks < 2 ^ 63
  pub bytes : f.blocks * block_size < 2 ^ 63
  pub free_inodes : f.ffree ≤ f.files
  pub inodes : f.files < 2 ^ 63

signed64_small : (n : ℕ) → n < 2 ^ 63 → signed64 n ≡ pos n
signed64_small n h = ground arith

times64_small : (a b : ℕ) → a * b < 2 ^ 63 → times64 (pos a) (pos b) ≡ pos (a * b)
times64_small a b h = ground arith

sub64_small : (a b : ℕ) → a < 2 ^ 63 → b ≤ a → sub64 (pos a) (pos b) ≡ pos (a - b)
sub64_small a b h k = ground arith

bytes64 :
    (n blocks b : ℕ)
    → n ≤ blocks
    → blocks < 2 ^ 63
    → blocks * b < 2 ^ 63
    → times64 (signed64 n) (pos b) ≡ pos (n * b)
bytes64 n blocks b h small fits =
    rw (signed64_small n (omega arith)) (times64_small n b (omega (arith, mul-le-mul_right b h)))

-- Where the counts of a file system agree and its size in bytes fits int64, no statistic overflows.
pub statistics_of_lem :
    (f : Statfs) (block_size : ℕ)
    → IsSane f block_size
    → (((statistics_of f).available_bytes ≡ pos (f.bavail * block_size))
        × ((statistics_of f).total_bytes ≡ pos (f.blocks * block_size))
        × ((statistics_of f).used_bytes ≡ pos ((f.blocks - f.bfree) * block_size)))
      × ((statistics_of f).available_inodes ≡ pos f.ffree)
      × ((statistics_of f).total_inodes ≡ pos f.files)
      × ((statistics_of f).used_inodes ≡ pos (f.files - f.ffree))
unfolding statistics_of
statistics_of_lem f b h = rw h.size (
  (
    bytes64 f.bavail f.blocks b (omega arith) h.blocks h.bytes,
    bytes64 f.blocks f.blocks b (omega arith) h.blocks h.bytes,
    rw
        (
          signed64_small f.blocks h.blocks,
          signed64_small f.bfree (omega arith),
          sub64_small f.blocks f.bfree h.blocks h.free,
        )
        (times64_small (f.blocks - f.bfree) b (
          omega (arith, mul-le-mul_right {m = f.blocks - f.bfree} {n = f.blocks} b (omega arith)))),
  ),
  signed64_small f.ffree (omega arith),
  signed64_small f.files h.inodes,
  rw (signed64_small f.files h.inodes, signed64_small f.ffree (omega arith))
      (sub64_small f.files f.ffree h.inodes h.free_inodes),
)
