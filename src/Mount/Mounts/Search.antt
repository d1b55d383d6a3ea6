-- ===== src/Mount/Mounts/Search.antt =====
-- The search for a device leaves the mounts as they are.
use cloudstack_csi_driver.Prelude.{
  ℕ, zero, suc, String, true, false, List, [], ◌∷◌, ◌<>◌, refl, arith, inl, inr,
}
use cloudstack_csi_driver.Prelude.Prog.{Outcome-cases}
use cloudstack_csi_driver.Mount.Os.{Os}
use cloudstack_csi_driver.Mount.Mounts.{Mounts, Still}
use cloudstack_csi_driver.Mount.Device.{
  verify_device, is_block_device, get_block_size_bytes, is_device_mounted, get_device_properties,
}
use cloudstack_csi_driver.Mount.Search.{
  letters, scan, usable, get_device_path_for_xen_server, get_device_path_for_vmware,
  get_device_path_by_serial_id, probe_volume, poll, get_device_path, by_id, source_path,
  source_path_prefixes, rescan, get_device_path_beyond_xen,
}

module _ (O : Os) (T : Mounts O) where
  is_block_device-Still : (device : String) → Still T.at (is_block_device O device)
  unfolding is_block_device
  is_block_device-Still device s path = elim (Outcome-cases (O.stat_mode device s)) [
    | inl (mode, t, e) ↦ ground (arith, T.stat_mode device s path)
    | inr (x, t, e) ↦ ground (arith, T.stat_mode device s path)
  ]

  get_block_size_bytes-Still : (device : String) → Still T.at (get_block_size_bytes O device)
  unfolding get_block_size_bytes
  get_block_size_bytes-Still device s path =
      elim (Outcome-cases (O.output "blockdev" ("--getsize64" ∷ device ∷ []) s)) [
        | inl (out, t, e) ↦ ground (arith, T.blockdev ("--getsize64" ∷ device ∷ []) s path)
        | inr (x, t, e) ↦ ground (arith, T.blockdev ("--getsize64" ∷ device ∷ []) s path)
      ]

  is_device_mounted-Still : (device : String) → Still T.at (is_device_mounted O device)
  unfolding is_device_mounted
  is_device_mounted-Still device s path =
      elim (Outcome-cases (O.output "grep" (device ∷ "/proc/mounts" ∷ []) s)) [
        | inl (out, t, e) ↦ ground (arith, T.grep (device ∷ "/proc/mounts" ∷ []) s path)
        | inr (x, t, e) ↦ ground (arith, T.grep (device ∷ "/proc/mounts" ∷ []) s path)
      ]

  get_device_properties-Still : (device : String) → Still T.at (get_device_properties O device)
  unfolding get_device_properties
  get_device_properties-Still device s path =
      let args = "info" ∷ "--query=property" ∷ device ∷ [] in
      elim (Outcome-cases (O.output "udevadm" args s)) [
        | inl (out, t, e) ↦ ground (arith, T.udevadm args s path)
        | inr (x, t, e) ↦ ground (arith, T.udevadm args s path)
      ]

  verify_device-Still : (device v : String) → Still T.at (verify_device O device v)
  unfolding verify_device
  verify_device-Still device v s path = elim (Outcome-cases (get_block_size_bytes O device s)) [
    | inr (x, t, e) ↦ ground (arith, get_block_size_bytes-Still device s path)
    | inl (size, t, e) ↦
        let sized = get_block_size_bytes-Still device s path in
        let looked = is_device_mounted-Still device t path in
        elim (Outcome-cases (is_device_mounted O device t)) [
          | inr (x, u, f) ↦ ground (arith, sized, looked)
          | inl (true, u, f) ↦ ground (arith, sized, looked)
          | inl (false, u, f) ↦
              ground (arith, sized, looked, get_device_properties-Still device u path)
        ]
  ]

  usable-Still : (device v : String) → Still T.at (usable O device v)
  unfolding usable
  usable-Still device v s path = elim (Outcome-cases (O.stat device s)) [
    | inr (x, t, e) ↦ ground (arith, T.stat device s path)
    | inl (a, t, e) ↦
        let asked = is_block_device-Still device t path in
        elim (Outcome-cases (is_block_device O device t)) [
          | inr (x, u, f) ↦ ground (arith, T.stat device s path, asked)
          | inl (false, u, f) ↦ ground (arith, T.stat device s path, asked)
          | inl (true, u, f) ↦
              ground (arith, T.stat device s path, asked, verify_device-Still device v u path)
        ]
  ]

  scan-Still : (prefix v : String) (cs : List String) → Still T.at (scan O prefix v cs)
  unfolding scan
  scan-Still prefix v [] s path = refl
  scan-Still prefix v (c ∷ cs) s path =
      let used = usable-Still (prefix <> c) v s path in
      elim (Outcome-cases (usable O (prefix <> c) v s)) [
        | inr (x, t, e) ↦ ground (arith, used)
        | inl (true, t, e) ↦ ground (arith, used)
        | inl (false, t, e) ↦ ground (arith, used, scan-Still prefix v cs t path)
      ]

  by_id-Still : (v : String) (prefixes : List String) → Still T.at (by_id O v prefixes)
  unfolding by_id
  by_id-Still v [] s path = refl
  by_id-Still v (c ∷ cs) s path = elim (Outcome-cases (O.stat (source_path v c) s)) [
    | inl (a, t, e) ↦ ground (arith, T.stat (source_path v c) s path)
    | inr (x, t, e) ↦ ground (arith, T.stat (source_path v c) s path, by_id-Still v cs t path)
  ]

  beyond_xen-Still : (v : String) → Still T.at (get_device_path_beyond_xen O v)
  unfolding get_device_path_beyond_xen get_device_path_for_vmware
  beyond_xen-Still v s path =
      let scanned = scan-Still "/dev/sd" v letters s path in
      elim (Outcome-cases (scan O "/dev/sd" v letters s)) [
        | inr (x, t, e) ↦ ground (arith, scanned, by_id-Still v source_path_prefixes t path)
        | inl (p, t, e) ↦ ground (arith, scanned, by_id-Still v source_path_prefixes t path)
      ]

  by_serial_id-Still : (v : String) → Still T.at (get_device_path_by_serial_id O v)
  unfolding get_device_path_by_serial_id get_device_path_for_xen_server
  by_serial_id-Still v s path =
      let scanned = scan-Still "/dev/xvd" v letters s path in
      elim (Outcome-cases (scan O "/dev/xvd" v letters s)) [
        | inr (x, t, e) ↦ ground (arith, scanned, beyond_xen-Still v t path)
        | inl (p, t, e) ↦ ground (arith, scanned, beyond_xen-Still v t path)
      ]

  rescan-Still : (hosts : List String) → Still T.at (rescan O hosts)
  unfolding rescan
  rescan-Still [] s path = refl
  rescan-Still (host ∷ hosts) s path =
      let file = "/sys/class/scsi_host/" <> host <> "/scan" in
      elim (Outcome-cases (O.write_file file "- - -" s)) [
        | inl (a, t, e) ↦ ground (arith, T.scan file s path, rescan-Still hosts t path)
        | inr (x, t, e) ↦ ground (arith, T.scan file s path, rescan-Still hosts t path)
      ]

  probe_volume-Still : Still T.at (probe_volume O)
  unfolding probe_volume
  probe_volume-Still s path =
      let read = T.read_dir "/sys/class/scsi_host/" s path in
      let trigger = λ (t : O.State). T.trigger t path in
      elim (Outcome-cases (O.read_dir "/sys/class/scsi_host/" s)) [
        | inl (hosts, t, e) ↦ elim (Outcome-cases (rescan O hosts t)) [
          | inl (a, u, f) ↦ ground (arith, read, rescan-Still hosts t path, trigger u)
          | inr (x, u, f) ↦ ground (arith, read, rescan-Still hosts t path)
        ]
        | inr (x, t, e) ↦ elim (Outcome-cases (rescan O [] t)) [
          | inl (a, u, f) ↦ ground (arith, read, rescan-Still [] t path, trigger u)
          | inr (y, u, f) ↦ ground (arith, read, rescan-Still [] t path)
        ]
      ]

  poll-Still : (n : ℕ) (v : String) → Still T.at (poll O n v)
  unfolding poll
  poll-Still zero v s path = refl
  poll-Still (suc n) v s path =
      let searched = by_serial_id-Still v s path in
      elim (Outcome-cases (get_device_path_by_serial_id O v s)) [
        | inr (x, t, e) ↦ ground (arith, searched)
        | inl (p, t, e) ↦ elim (Outcome-cases (probe_volume O t)) [
          | inr (y, u, f) ↦ ground (arith, searched, probe_volume-Still t path)
          | inl (a, u, f) ↦
              ground (arith, searched, probe_volume-Still t path, poll-Still n v u path)
        ]
      ]

  pub get_device_path-Still : (v : String) → Still T.at (get_device_path O v)
  unfolding get_device_path
  get_device_path-Still v s path = poll-Still (O.tries 20 s) v s path
