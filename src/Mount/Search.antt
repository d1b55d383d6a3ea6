-- ===== src/Mount/Search.antt =====
-- pkg/mount/mount.go: the search for the device of a volume.
pub mod Free
pub mod Laws
use cloudstack_csi_driver.Prelude.{
  ℕ, zero, suc, String, Bool, true, false, not, List, [], ◌∷◌, ◌<>◌, ◌=?◌, if◌then◌else◌, ◌⊎◌, inl,
  inr,
}
use cloudstack_csi_driver.Prelude.Paths.{join}
use cloudstack_csi_driver.Prelude.Prog.{
  Prog, Outcome, ok, err, ◌>>=◌, ◌>>◌, pure, fail, attempt, map_err, or_else,
}
use cloudstack_csi_driver.Mount.Os.{Os, MountError, os, text, Mnt, sys}
use cloudstack_csi_driver.Mount.Device.{
  disk_uuid_to_serial, is_block_device, verify_device, succeeded,
}

abbrev pub disk_id_path : String
disk_id_path = "/dev/disk/by-id"

-- From b on: the root disk is the one with the letter a.
abbrev pub letters : List String
letters =
    "b" ∷ "c" ∷ "d" ∷ "e" ∷ "f" ∷ "g" ∷ "h" ∷ "i" ∷ "j" ∷ "k" ∷ "l" ∷ "m" ∷ "n" ∷ "o" ∷ "p" ∷ "q"
    ∷ "r" ∷ "s" ∷ "t" ∷ "u" ∷ "v" ∷ "w" ∷ "x" ∷ "y" ∷ "z" ∷ []

abbrev pub source_path_prefixes : List String
source_path_prefixes = "virtio-" ∷ "scsi-" ∷ "scsi-0QEMU_QEMU_HARDDISK_" ∷ []

-- The path of a volume with one of the prefixes.
unfoldable pub source_path : String → String → String
source_path volume_id prefix = join (disk_id_path ∷ (prefix <> disk_uuid_to_serial volume_id) ∷ [])

module _ (O : Os) where
  -- The body of the loops over the letters.
  unfoldable pub usable : String → String → Mnt O Bool
  usable device volume_id = do
    there ← attempt (O.stat device)
    if not (succeeded there) then pure false else do
      is_block ← attempt (is_block_device O device)
      if not (or_else false is_block) then pure false else verify_device O device volume_id

  unfoldable pub scan : String → String → List String → Mnt O String
  scan prefix volume_id [] = fail (text "device not found for volume")
  scan prefix volume_id (c ∷ cs) = do
    found ← usable (prefix <> c) volume_id
    if found then pure (prefix <> c) else scan prefix volume_id cs

  unfoldable pub get_device_path_for_xen_server : String → Mnt O String
  get_device_path_for_xen_server volume_id = scan "/dev/xvd" volume_id letters

  unfoldable pub get_device_path_for_vmware : String → Mnt O String
  get_device_path_for_vmware volume_id = scan "/dev/sd" volume_id letters

  -- The file is there; else the error is one that `os.IsNotExist` knows, and the search goes on,
  -- or it is another one.
  abbrev pub looked_up : String → O.Error ⊎ Unit {0} → Mnt O String → Mnt O String
  looked_up source (inr u) next = pure source
  looked_up source (inl e) next = if O.is_not_exist e then next else fail (os e)

  unfoldable pub by_id : String → List String → Mnt O String
  by_id volume_id [] = pure ""
  by_id volume_id (prefix ∷ rest) = do
    there ← attempt (O.stat (source_path volume_id prefix))
    looked_up (source_path volume_id prefix) there (by_id volume_id rest)

  -- Where there is no disk of Xen: the disks of VMware, then those of KVM.
  unfoldable pub get_device_path_beyond_xen : String → Mnt O String
  get_device_path_beyond_xen volume_id = do
    vmware ← attempt (get_device_path_for_vmware volume_id)
    if not (or_else "" vmware =? "")
        then pure (or_else "" vmware)
        else by_id volume_id source_path_prefixes

  unfoldable pub get_device_path_by_serial_id : String → Mnt O String
  get_device_path_by_serial_id volume_id = do
    xen ← attempt (get_device_path_for_xen_server volume_id)
    if not (or_else "" xen =? "")
        then pure (or_else "" xen)
        else get_device_path_beyond_xen volume_id

  -- Each host is asked for a scan, whatever comes of it.
  unfoldable pub rescan : List String → Mnt O (Unit {0})
  rescan [] = pure tt
  rescan (host ∷ hosts) = do
    result ← attempt (O.write_file ("/sys/class/scsi_host/" <> host <> "/scan") "- - -")
    rescan hosts

  unfoldable pub probe_volume : Mnt O (Unit {0})
  probe_volume = do
    hosts ← attempt (O.read_dir "/sys/class/scsi_host/")
    u ← rescan (or_else [] hosts)
    result ← attempt (O.combined_output "udevadm" ("trigger" ∷ []))
    pure tt

  -- What comes of the try: an error ends the back-off, and leaves the path empty.
  abbrev pub tried : MountError O ⊎ String → Mnt O (Unit {0}) → Mnt O String → Mnt O String
  tried (inl e) probe next = fail (text "device path was empty")
  tried (inr path) probe next = if not (path =? "") then pure path else do u ← probe; next

  -- The tries that are left.
  unfoldable pub poll : ℕ → String → Mnt O String
  poll zero volume_id = fail (text "failed to find device within the alloted time")
  poll (suc n) volume_id = do
    path ← attempt (get_device_path_by_serial_id volume_id)
    tried path probe_volume (poll n volume_id)

  -- A back-off of 20 steps.
  unfoldable pub get_device_path : String → Mnt O String
  get_device_path volume_id s = poll (O.tries 20 s) volume_id s
