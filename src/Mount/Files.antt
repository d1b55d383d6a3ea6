-- ===== src/Mount/Files.antt =====
-- pkg/mount/mount.go: files, mounts, and the statistics of a volume.
pub mod Laws
use cloudstack_csi_driver.Prelude.{
  ℕ, String, Bool, true, false, List, [], ◌∷◌, if◌then◌else◌, ◌⊎◌, inl, inr, codes,
}
use cloudstack_csi_driver.Prelude.Int.{ℤ, pos, signed64, sub64, times64}
use cloudstack_csi_driver.Prelude.Strconv.{parse_int}
use cloudstack_csi_driver.Prelude.Strings.{trim_space}
use cloudstack_csi_driver.Prelude.Prog.{
  Prog, Outcome, ok, err, ◌>>=◌, ◌>>◌, pure, fail, attempt, map_err, or_fail,
}
use cloudstack_csi_driver.Mount.{VolumeStatistics}
use cloudstack_csi_driver.Mount.Os.{Os, Statfs, MountError, os, text, wrapped, Mnt, sys}
use cloudstack_csi_driver.Mount.Device.{is_block_device}

-- The statistics of a file system, in int64.
unfoldable pub statistics_of : Statfs → VolumeStatistics
statistics_of f = record {
  available_bytes = times64 (signed64 f.bavail) f.bsize;
  total_bytes = times64 (signed64 f.blocks) f.bsize;
  used_bytes = times64 (sub64 (signed64 f.blocks) (signed64 f.bfree)) f.bsize;
  available_inodes = signed64 f.ffree;
  total_inodes = signed64 f.files;
  used_inodes = sub64 (signed64 f.files) (signed64 f.ffree);
}

-- The size of a block device, and nothing else.
abbrev pub only_total : ℤ → VolumeStatistics
only_total size = record {
  available_bytes = pos 0;
  total_bytes = size;
  used_bytes = pos 0;
  available_inodes = pos 0;
  total_inodes = pos 0;
  used_inodes = pos 0;
}

module _ (O : Os) where
  -- A text that does not wrap the error of the system.
  abbrev pub described : String → MountError O → MountError O
  described t (os e) = wrapped t e
  described t (text u) = text u
  described t (wrapped u e) = wrapped u e

  -- What `blockdev getsize64` prints.
  unfoldable pub block_statistics : String → Mnt O VolumeStatistics
  block_statistics volume_path = do
    out ←
        map_err (wrapped "error when getting size of block volume")
          (O.combined_output "blockdev" ("getsize64" ∷ volume_path ∷ []))
    size ← or_fail (parse_int (trim_space (codes out))) (text "failed to parse size into int")
    pure (only_total size)

  unfoldable pub get_statistics : String → Mnt O VolumeStatistics
  get_statistics volume_path = do
    is_block ←
        map_err (described "failed to determine if volume is block device")
          (is_block_device O volume_path)
    if is_block
        then block_statistics volume_path
        else do f ← sys (O.statfs volume_path); pure (statistics_of f)

  abbrev pub unless_exists : O.Error ⊎ Unit {0} → Mnt O (Unit {0})
  unless_exists (inr u) = pure tt
  unless_exists (inl e) = if O.is_exist e then pure tt else fail (os e)

  unfoldable pub make_dir : String → Mnt O (Unit {0})
  make_dir pathname = do result ← attempt (O.mkdir_all pathname); unless_exists result

  -- `f.Close()`: where the file exists, `f` is nil.
  abbrev pub closed : O.Error ⊎ O.File → Mnt O (Unit {0})
  closed (inr file) = sys (O.close file)
  closed (inl e) = fail (os (if O.is_exist e then O.invalid else e))

  unfoldable pub make_file : String → Mnt O (Unit {0})
  make_file pathname = do result ← attempt (O.open_create pathname); closed result

  unfoldable pub unstage : String → Mnt O (Unit {0})
  unstage path = sys (O.cleanup_mount_point path)

  unfoldable pub unpublish : String → Mnt O (Unit {0})
  unpublish path = unstage path

  unfoldable pub get_device_name : String → Mnt O (String × ℤ)
  get_device_name mount_path = sys (O.get_device_name_from_mount mount_path)

  unfoldable pub path_exists : String → Mnt O Bool
  path_exists path = sys (O.mount_path_exists path)

  unfoldable pub resize : String → String → Mnt O Bool
  resize device_path device_mount_path = sys (O.resize device_path device_mount_path)

  unfoldable pub need_resize : String → String → Mnt O Bool
  need_resize device_path device_mount_path = sys (O.need_resize device_path device_mount_path)
