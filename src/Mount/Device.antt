-- ===== src/Mount/Device.antt =====
-- pkg/mount/mount.go: what is asked of one device.
use cloudstack_csi_driver.Prelude.{
  ◌/◌, ◌%◌, String, Bool, true, false, not, List, [], ◌∷◌, ◌=?◌, ◌==◌, codes, if◌then◌else◌, ◌⊎◌,
  inl, inr, ◌^◌,
}
use cloudstack_csi_driver.Prelude.Int.{ℤ}
use cloudstack_csi_driver.Prelude.Maps.{Map, insert}
use cloudstack_csi_driver.Prelude.Strconv.{parse_int}
use cloudstack_csi_driver.Prelude.Strings.{split, trim_space, contains, remove_all, take_bytes}
use cloudstack_csi_driver.Prelude.Prog.{◌>>=◌, pure, fail, or_fail, attempt, map_err}
use cloudstack_csi_driver.Mount.Os.{Os, os, text, wrapped, Mnt, sys}

-- `diskUUIDToSerial`
unfoldable pub disk_uuid_to_serial : String → String
disk_uuid_to_serial uuid = take_bytes 20 (remove_all b'-' uuid)

-- One line of the output of udevadm.
abbrev pub add_property : List String → Map String → Map String
add_property (key ∷ value ∷ []) props = insert key value props
add_property [] props = props
add_property (key ∷ []) props = props
add_property (key ∷ value ∷ x ∷ xs) props = props

unfoldable pub add_properties : List String → Map String → Map String
unfolding split
add_properties [] props = props
add_properties (line ∷ rest) props =
    add_properties rest (if line =? "" then props else add_property (split b'=' line) props)

abbrev pub succeeded : {E A : Type 0} → E ⊎ A → Bool
succeeded (inl e) = false
succeeded (inr a) = true

abbrev pub unmounted : {E : Type 0} → E ⊎ Bool → Bool
unmounted (inl e) = false
unmounted (inr b) = not b

module _ (O : Os) where
  unfoldable pub get_block_size_bytes : String → Mnt O ℤ
  get_block_size_bytes device = do
    out ←
        map_err (wrapped "error when getting size of block volume")
          (O.output "blockdev" ("--getsize64" ∷ device ∷ []))
    or_fail (parse_int (trim_space (codes out))) (text "failed to parse size as int")

  -- `(mode & S_IFMT) == S_IFBLK`: the four bits from bit 12 on are 6.
  unfoldable pub is_block_device : String → Mnt O Bool
  is_block_device device = do mode ← sys (O.stat_mode device); pure ((mode / 2 ^ 12) % 16 == 6)

  abbrev pub grepped : O.Error ⊎ String → Mnt O Bool
  grepped (inr out) = pure (not (out =? ""))
  grepped (inl e) =
      if contains (codes "exit status 1") (codes (O.error_text e)) then pure false else fail (os e)

  unfoldable pub is_device_mounted : String → Mnt O Bool
  is_device_mounted device = do
    result ← attempt (O.output "grep" (device ∷ "/proc/mounts" ∷ []))
    grepped result

  unfoldable pub get_device_properties : String → Mnt O (Map String)
  get_device_properties device = do
    out ← sys (O.output "udevadm" ("info" ∷ "--query=property" ∷ device ∷ []))
    pure (add_properties (split 10 out) [])

  -- `verifyDevice`: the volume is only logged.
  unfoldable pub verify_device : String → String → Mnt O Bool
  verify_device device volume_id = do
    size ← attempt (get_block_size_bytes device)
    if not (succeeded size) then pure false else do
      mounted ← attempt (is_device_mounted device)
      if not (unmounted mounted)
          then pure false
          else do props ← attempt (get_device_properties device); pure (succeeded props)
