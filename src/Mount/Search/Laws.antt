-- ===== src/Mount/Search/Laws.antt =====
-- The search for the device of a volume: what it can return, and after how many tries.
use mathlib.Core.List.Memᴰ.{Memᴰ}
use cloudstack_csi_driver.Prelude.{
  ℕ, zero, suc, ◌<◌, ◌≤◌, String, true, false, List, [], ◌∷◌, ◌<>◌, ◌=?◌, ◌⊎◌, inl, inr, ◌≡◌, refl,
  Bool-cases, arith, ◌↔◌,
}
use cloudstack_csi_driver.Prelude.Prog.{ok, Outcome-cases, final}
use cloudstack_csi_driver.Mount.Os.{Os}
use cloudstack_csi_driver.Mount.Device.{verify_device}
use cloudstack_csi_driver.Mount.Search.{
  letters, scan, usable, get_device_path_for_xen_server, get_device_path_for_vmware,
  get_device_path_by_serial_id, probe_volume, poll, get_device_path, by_id, source_path,
  source_path_prefixes, rescan, get_device_path_beyond_xen,
}
use cloudstack_csi_driver.Mount.Search.Free.{IsFree, usable-IsFree}

module _ (O : Os) where
  -- A search that finds a path after some rounds that do not, each of which probes the hosts.
  pub data Appears (volume_id : String) : ℕ → O.State → String → O.State → Type 0 where
    now :
        {s t : O.State} {p : String}
        → get_device_path_by_serial_id O volume_id s ≡ ok p t
        → (p =? "") ≡ false
        → Appears volume_id zero s p t
    later :
        {n : ℕ} {s t u : O.State} {p : String}
        → get_device_path_by_serial_id O volume_id s ≡ ok "" u
        → Appears volume_id n (final (probe_volume O u)) p t
        → Appears volume_id (suc n) s p t

  rescan-ok :
      (hosts : List String) (s : O.State) → rescan O hosts s ≡ ok tt (final (rescan O hosts s))
  unfolding rescan
  rescan-ok [] s = refl
  rescan-ok (host ∷ hosts) s =
      elim (Outcome-cases (O.write_file ("/sys/class/scsi_host/" <> host <> "/scan") "- - -" s)) [
        | inl (a, t, e) ↦ ground (arith, rescan-ok hosts t)
        | inr (a, t, e) ↦ ground (arith, rescan-ok hosts t)
      ]

  probe-ok : (s : O.State) → probe_volume O s ≡ ok tt (final (probe_volume O s))
  unfolding probe_volume
  probe-ok s = elim (Outcome-cases (O.read_dir "/sys/class/scsi_host/" s)) [
    | inl (hosts, t, e) ↦ ground (arith, rescan-ok hosts t)
    | inr (x, t, e) ↦ ground (arith, rescan-ok [] t)
  ]

  poll-Appears :
      (k n : ℕ) (v : String) (s t : O.State) (p : String)
      → Appears v n s p t
      → n < k
      → poll O k v s ≡ ok p t
  unfolding poll
  poll-Appears zero n v s t p a h = elim h [ ]
  poll-Appears (suc k) zero v s t p (now e ne) h = ground arith
  poll-Appears (suc k) (suc n) v s t p (later {u = u} e a) h =
      ground (arith, probe-ok u, poll-Appears k n v (final (probe_volume O u)) t p a (omega arith))

  poll-Found :
      (k : ℕ) (v : String) (s t : O.State) (p : String)
      → poll O k v s ≡ ok p t
      → (n : ℕ) × (n < k) × Appears v n s p t
  unfolding poll
  poll-Found zero v s t p h = absurd (cc)
  poll-Found (suc k) v s t p h = elim (Outcome-cases (get_device_path_by_serial_id O v s)) [
    | inr (x, u, e) ↦ absurd (ground arith)
    | inl (q, u, e) ↦ elim (Bool-cases (q =? "")) [
      | inl empty ↦
          let (n, below, a) =
            poll-Found k v (final (probe_volume O u)) t p (ground (arith, probe-ok u)) in
          (suc n, omega arith, later (ground arith) a)
      | inr found ↦ (zero, omega arith, now (ground arith) (ground arith))
    ]
  ]

  scan-found :
      (prefix v : String) (cs : List String) (s t : O.State) (p : String)
      → scan O prefix v cs s ≡ ok p t
      → (c : String) × Memᴰ c cs
        × (p ≡ prefix <> c)
        × ((u : O.State) × (usable O p v u ≡ ok true t))
  unfolding scan
  scan-found prefix v [] s t p h = absurd cc
  scan-found prefix v (c ∷ cs) s t p h = elim (Outcome-cases (usable O (prefix <> c) v s)) [
    | inr (x, u, e) ↦ absurd (ground arith)
    | inl (true, u, e) ↦ (c, Memᴰ.head refl, ground arith, (s, ground arith))
    | inl (false, u, e) ↦
        let (d, m, same, w) = scan-found prefix v cs u t p (ground arith) in
        (d, Memᴰ.tail m, same, w)
  ]

  by_id-found :
      (v : String) (prefixes : List String) (s t : O.State) (p : String)
      → by_id O v prefixes s ≡ ok p t
      → (p =? "") ≡ false
      → (c : String) × Memᴰ c prefixes
        × (p ≡ source_path v c)
        × ((u : O.State) × (O.stat p u ≡ ok tt t))
  unfolding by_id
  by_id-found v [] s t p h ne = absurd (ground arith)
  by_id-found v (c ∷ cs) s t p h ne = elim (Outcome-cases (O.stat (source_path v c) s)) [
    | inl (a, u, e) ↦ (c, Memᴰ.head refl, ground arith, (s, ground arith))
    | inr (x, u, e) ↦ elim (Bool-cases (O.is_not_exist x)) [
      | inl missing ↦
          let (d, m, same, w) = by_id-found v cs u t p (ground arith) ne in
          (d, Memᴰ.tail m, same, w)
      | inr other ↦ absurd (ground arith)
    ]
  ]

  -- A device that was found: an unmounted disk of Xen or of VMware, or the link of the volume.
  abbrev pub Verified : String → String → O.State → Type 0
  Verified v p t =
      ((c : String) × Memᴰ c letters
        × ((p ≡ "/dev/xvd" <> c) ⊎ (p ≡ "/dev/sd" <> c))
        × IsFree O p t)
      ⊎ ((c : String) × Memᴰ c source_path_prefixes
          × (p ≡ source_path v c)
          × ((u : O.State) × (O.stat p u ≡ ok tt t)))

  beyond_xen-Verified :
      (v : String) (s t : O.State) (p : String)
      → get_device_path_beyond_xen O v s ≡ ok p t
      → (p =? "") ≡ false
      → Verified v p t
  unfolding get_device_path_beyond_xen get_device_path_for_vmware
  beyond_xen-Verified v s t p h ne = elim (Outcome-cases (scan O "/dev/sd" v letters s)) [
    | inr (x, u, e) ↦ inr (by_id-found v source_path_prefixes u t p (ground arith) ne)
    | inl (q, u, e) ↦ elim (Bool-cases (q =? "")) [
      | inl empty ↦ inr (by_id-found v source_path_prefixes u t p (ground arith) ne)
      | inr found ↦
          let (c, m, same, w) = scan-found "/dev/sd" v letters s t p (ground arith) in
          inl (c, m, inr same, usable-IsFree O p v w.0 t w.1)
    ]
  ]

  found-Verified :
      (v : String) (s t : O.State) (p : String)
      → get_device_path_by_serial_id O v s ≡ ok p t
      → (p =? "") ≡ false
      → Verified v p t
  unfolding get_device_path_by_serial_id get_device_path_for_xen_server
  found-Verified v s t p h ne = elim (Outcome-cases (scan O "/dev/xvd" v letters s)) [
    | inr (x, u, e) ↦ beyond_xen-Verified v u t p (ground arith) ne
    | inl (q, u, e) ↦ elim (Bool-cases (q =? "")) [
      | inl empty ↦ beyond_xen-Verified v u t p (ground arith) ne
      | inr found ↦
          let (c, m, same, w) = scan-found "/dev/xvd" v letters s t p (ground arith) in
          inl (c, m, inl same, usable-IsFree O p v w.0 t w.1)
    ]
  ]

  Appears-Verified :
      (v : String) (n : ℕ) (s t : O.State) (p : String) → Appears v n s p t → Verified v p t
  Appears-Verified v zero s t p (now e ne) = found-Verified v s t p e ne
  Appears-Verified v (suc n) s t p (later {u = u} e a) =
      Appears-Verified v n (final (probe_volume O u)) t p a

  -- A path is returned exactly if the search finds it within the tries of the back-off, 20 at most,
  -- after rounds that find nothing and probe the hosts.
  pub get_device_path_iff :
      (v : String) (s t : O.State) (p : String)
      → ((get_device_path O v s ≡ ok p t) ↔ ((n : ℕ) × (n < O.tries 20 s) × Appears v n s p t))
        × (O.tries 20 s ≤ 20)
  unfolding get_device_path
  get_device_path_iff v s t p = (
    (
      poll-Found (O.tries 20 s) v s t p,
      λ w. let (n, below, a) = w in poll-Appears (O.tries 20 s) n v s t p a below,
    ),
    O.tries-le 20 s,
  )

  -- A path that is returned is that of a disk of Xen or of VMware, with a letter from b to z, of which
  -- the last answers of the machine were that it is there, that its mode is that of a block device,
  -- that it has a size, that grep prints no line of /proc/mounts for it or fails with an error whose
  -- text has `exit status 1`, and that udevadm has properties of it; or it is a link by the serial
  -- number of the volume, and that was there.
  pub get_device_path-Verified :
      (v : String) (s t : O.State) (p : String) → get_device_path O v s ≡ ok p t → Verified v p t
  unfolding get_device_path
  get_device_path-Verified v s t p h =
      let (n, below, a) = poll-Found (O.tries 20 s) v s t p h in Appears-Verified v n s t p a

  usable_any : (device v w : String) → usable O device v ≡ usable O device w
  unfolding usable verify_device
  usable_any device v w = refl

  scan_any :
      (prefix v w : String) (cs : List String) (s : O.State)
      → scan O prefix v cs s ≡ scan O prefix w cs s
  unfolding scan
  scan_any prefix v w [] s = refl
  scan_any prefix v w (c ∷ cs) s = elim (Outcome-cases (usable O (prefix <> c) v s)) [
    | inl (b, t, e) ↦ ground (arith, usable_any (prefix <> c) v w, scan_any prefix v w cs t)
    | inr (x, t, e) ↦ ground (arith, usable_any (prefix <> c) v w)
  ]

  -- Where the search for a disk of Xen finds one for some volume, the same path is returned for
  -- every volume, if there is a try.
  pub get_device_path_any :
      (v w : String) (s t : O.State) (p : String)
      → get_device_path_for_xen_server O v s ≡ ok p t
      → (p =? "") ≡ false
      → 0 < O.tries 20 s
      → get_device_path O w s ≡ ok p t
  unfolding get_device_path_by_serial_id get_device_path_for_xen_server
  get_device_path_any v w s t p h ne lt =
      (get_device_path_iff w s t p).0.1
        (zero, lt, now (ground (arith, scan_any "/dev/xvd" v w letters s)) ne)
