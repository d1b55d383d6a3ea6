-- ===== src/Driver/Node/Stage/Mounted.antt =====
-- What the handlers of Driver/Node/Stage.antt do to the mounts of a machine, part by part.
use cloudstack_csi_driver.Prelude.{
  [], ◌∷◌, ◌++◌, String, Bool, true, false, List, [], some, ◌≡◌, ◌≢◌, ◌=?◌, if◌then◌else◌, arith,
  inl, inr, Bool-cases, ap, ◌∙◌,
}
use cloudstack_csi_driver.Prelude.Int.{ℤ, pos, negsuc, eqb_ℤ}
use cloudstack_csi_driver.Prelude.Prog.{ok, Outcome-cases}
use cloudstack_csi_driver.Util.VolumeLocks.{Sets}
use cloudstack_csi_driver.Util.VolumeLocks
use cloudstack_csi_driver.Cloud.{Connector}
use cloudstack_csi_driver.Mount.{Mounter}
use cloudstack_csi_driver.Driver.Csi.{VolumeCapability, mount}
use cloudstack_csi_driver.Driver.Node.{NodeServer, NodeHandler, with_lock}
use cloudstack_csi_driver.Driver.Node.Options.{fs_type_of, add_flags}
use cloudstack_csi_driver.Driver.Node.Table.{Table}
use cloudstack_csi_driver.Driver.Node.Stage.{
  NodeStageVolumeRequest, compare_and_mount, make_missing, resize_if, format_and_grow, stage,
  stage_access, node_stage_volume, unstage, node_unstage_volume,
}

eqb_ℤ→eq : (a b : ℤ) → eqb_ℤ a b ≡ true → a ≡ b
eqb_ℤ→eq (pos m) (pos n) h = ground arith
eqb_ℤ→eq (pos m) (negsuc n) h = absurd (ground arith)
eqb_ℤ→eq (negsuc m) (pos n) h = absurd (ground arith)
eqb_ℤ→eq (negsuc m) (negsuc n) h = ground arith

module _ (L : Sets) (C : Connector) {M : Mounter} (T : Table M) where
  make_missing-at :
      (target : String) (exists : Bool) (s t : NodeServer L C M) (path : String)
      → make_missing L C M target exists s ≡ ok tt t
      → T.at t.machine path ≡ T.at s.machine path
  make_missing-at target true s t path h = ground arith
  make_missing-at target false s t path h = elim (Outcome-cases (M.make_dir target s.machine)) [
    | inr (e, m, f) ↦ absurd (ground arith)
    | inl (_, m, f) ↦ ground (arith, T.keeps_make_dir target s.machine m tt path f)
  ]

  resize_if-at :
      (source target : String) (need : Bool) (s t : NodeServer L C M) (path : String)
      → resize_if L C M source target need s ≡ ok tt t
      → T.at t.machine path ≡ T.at s.machine path
  resize_if-at source target false s t path h = ground arith
  resize_if-at source target true s t path h =
      elim (Outcome-cases (M.resize source target s.machine)) [
        | inr (e, m, f) ↦ absurd (ground arith)
        | inl (b, m, f) ↦ ground (arith, T.keeps_resize source target s.machine m b path f)
      ]

  format_and_grow-at :
      (source target fs_type : String) (options : List String) (s t : NodeServer L C M)
      (path : String)
      → format_and_grow L C M source target fs_type options s ≡ ok tt t
      → T.at t.machine path ≡ (
          if path =? T.resolve target
          then T.at s.machine path ++ (T.real source ∷ [])
          else T.at s.machine path)
  unfolding format_and_grow
  format_and_grow-at source target fs_type options s t path h =
      elim (Outcome-cases (M.format_and_mount source target fs_type options s.machine)) [
        | inr (e, m, f) ↦ absurd (ground arith)
        | inl (_, m, f) ↦ elim (Outcome-cases (M.need_resize source target m)) [
          | inr (e, m', g) ↦ absurd (ground arith)
          | inl (need, m', g) ↦ ground (
            arith,
            T.formats source target fs_type options s.machine m path f,
            T.keeps_need source target m m' need path g,
            resize_if-at source target need (record s { machine = m' }) t path (ground arith),
          )
        ]
      ]

  -- The device is what is mounted at the target, and the other mounts are as they were.
  abbrev pub Staged : String → String → M.State → M.State → Type 0
  Staged device target s t =
      (path : String)
      → T.at t path ≡ (if path =? T.resolve target then T.real device ∷ [] else T.at s path)

  -- From the look-up of the mount at the target on.
  compared-at :
      (source target fs_type : String) (options : List String) (s t : NodeServer L C M)
      → source ≢ ""
      → T.at s.machine (T.resolve target) ≡ []
      → compare_and_mount L C M source target fs_type options s ≡ ok tt t
      → Staged source target s.machine t.machine
  compared-at source target fs_type options s t named free h path =
      elim (Outcome-cases (M.get_device_name target s.machine)) [
        | inr (e, m, f) ↦ absurd (ground arith)
        | inl ((device, refs), m, f) ↦ elim (Bool-cases (device =? source)) [
          | inl same ↦ absurd (ground (arith, T.device_at target s.machine m device refs f))
          | inr other ↦ ground (
            arith,
            T.keeps_name target s.machine m (device, refs) path f,
            format_and_grow-at source target fs_type options (record s { machine = m }) t path
                (ground arith),
          )
        ]
      ]

  stage-Staged :
      (volume_id target fs_type : String) (options : List String) (s t : NodeServer L C M)
      → T.at s.machine (T.resolve target) ≡ []
      → stage L C M volume_id target fs_type options s ≡ ok tt t
      → (device : String) × (m : M.State) × (M.get_device_path volume_id s.machine ≡ ok device m)
        × Staged device target s.machine t.machine
  unfolding stage
  stage-Staged volume_id target fs_type options s t free h =
      elim (Outcome-cases (M.get_device_path volume_id s.machine)) [
        | inr (e, m, f) ↦ absurd (ground arith)
        | inl (device, m, f) ↦ elim (Outcome-cases (M.path_exists target m)) [
          | inr (e, m', g) ↦ absurd (ground arith)
          | inl (exists, m', g) ↦
              let s' = record s { machine = m' } in
              elim (Outcome-cases (make_missing L C M target exists s')) [
                | inr (e, u, k) ↦ absurd (ground arith)
                | inl (_, u, k) ↦
                    let same : (path : String) → T.at u.machine path ≡ T.at s.machine path = λ path.
                      ground (
                        arith,
                        make_missing-at target exists s' u path k,
                        T.keeps_exists target m m' exists path g,
                        T.keeps_device volume_id s.machine m device path f,
                      ) in
                    (
                      device,
                      m,
                      f,
                      λ path. ground (
                        arith,
                        compared-at device target fs_type options u t
                            (T.device_named volume_id s.machine m device f)
                            (ground (arith, same (T.resolve target), free)) (ground arith) path,
                        same path,
                      ),
                    )
              ]
        ]
      ]

  -- A handler that succeeds under the lock of a volume, taken apart.
  with_lock-ok :
      {A : Type 0} (id : String) (body : NodeHandler L C M A) (s t : NodeServer L C M) (a : A)
      → with_lock id body s ≡ ok a t
      → (u : NodeServer L C M) × (body (record s { volume_locks = L.insert s.volume_locks id })
          ≡ ok a u)
        × (t.machine ≡ u.machine)
  unfolding with_lock VolumeLocks.try_acquire
  with_lock-ok id body s t a h = elim (Bool-cases (L.has s.volume_locks id)) [
    | inl taken ↦ absurd (ground arith)
    | inr free ↦
        elim (Outcome-cases (body (record s { volume_locks = L.insert s.volume_locks id }))) [
          | inr (x, u, e) ↦ absurd (ground arith)
          | inl (b, u, e) ↦ (u, ground arith, ground arith)
        ]
  ]

  stage_access-Staged :
      (volume_id target fs_type : String) (flags : List String) (s t : NodeServer L C M)
      → T.at s.machine (T.resolve target) ≡ []
      → stage_access L C M volume_id target (mount fs_type flags) s ≡ ok tt t
      → (device : String) × (m : M.State) × (M.get_device_path volume_id s.machine ≡ ok device m)
        × Staged device target s.machine t.machine
  unfolding stage_access
  stage_access-Staged volume_id target fs_type flags s t free h =
      let fs = fs_type_of fs_type in
      let options = add_flags [] flags in
      let (u, body, after) =
        with_lock-ok volume_id (stage L C M volume_id target fs options) s t tt (ground arith) in
      rw after (
        stage-Staged volume_id target fs options
          (record s { volume_locks = L.insert s.volume_locks volume_id }) u free body)

  unstage-at :
      (target : String) (s t : NodeServer L C M) (path : String)
      → unstage L C M target s ≡ ok tt t
      → T.at t.machine path ≡ (if path =? T.resolve target then [] else T.at s.machine path)
  unfolding unstage
  unstage-at target s t path h = elim (Outcome-cases (M.get_device_name target s.machine)) [
    | inr (e, m, f) ↦ absurd (ground arith)
    | inl ((device, refs), m, f) ↦ elim (Bool-cases (eqb_ℤ refs (pos 0))) [
      | inl unused ↦ ground (
        arith,
        T.nothing_at target s.machine m device
            (f ∙ ap (λ n. ok (device, n) m) (eqb_ℤ→eq refs (pos 0) unused)),
        T.keeps_name target s.machine m (device, refs) path f,
      )
      | inr some_refs ↦ elim (Outcome-cases (M.unstage target m)) [
        | inr (e, m', g) ↦ absurd (ground arith)
        | inl (_, m', g) ↦ ground (
          arith,
          T.unstages target m m' path g,
          T.keeps_name target s.machine m (device, refs) path f,
        )
      ]
    ]
  ]

  pub unstage_volume-at :
      (volume_id target : String) (s t : NodeServer L C M) (path : String)
      → node_unstage_volume L C M volume_id target s ≡ ok tt t
      → T.at t.machine path ≡ (if path =? T.resolve target then [] else T.at s.machine path)
  unfolding node_unstage_volume
  unstage_volume-at volume_id target s t path h =
      let (u, body, after) = with_lock-ok volume_id (unstage L C M target) s t tt (ground arith) in
      rw after (
        unstage-at target (record s { volume_locks = L.insert s.volume_locks volume_id }) u path
          body)

  pub stage_volume-Staged :
      (req : NodeStageVolumeRequest) (c : VolumeCapability) (fs_type : String) (flags : List String)
      (s t : NodeServer L C M)
      → req.volume_capability ≡ some c
      → c.access_type ≡ mount fs_type flags
      → T.at s.machine (T.resolve req.staging_target_path) ≡ []
      → node_stage_volume L C M req s ≡ ok tt t
      → (device : String) × (m : M.State) × (M.get_device_path req.volume_id s.machine
          ≡ ok device m)
        × Staged device req.staging_target_path s.machine t.machine
  unfolding node_stage_volume
  stage_volume-Staged req c fs_type flags s t given is_mount free h =
      stage_access-Staged req.volume_id req.staging_target_path fs_type flags s t free
        (ground arith)
