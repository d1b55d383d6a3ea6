-- ===== src/Driver/Node/Publish/Mounts.antt =====
-- What `NodePublishVolume` and `NodeUnpublishVolume` of pkg/driver/node.go do to the mounts of a
-- machine.
use cloudstack_csi_driver.Prelude.{
  String, Bool, true, false, List, some, ◌≡◌, ◌≢◌, ◌=?◌, if◌then◌else◌, arith, inl, inr, refl,
  string_dec, ◌∷◌, [],
}
use cloudstack_csi_driver.Driver.Node.Options.Laws.{no_duplicate, add_flags_lem}
use cloudstack_csi_driver.Prelude.Prog.{ok, Outcome-cases}
use cloudstack_csi_driver.Util.VolumeLocks.{Sets}
use cloudstack_csi_driver.Cloud.{Connector}
use cloudstack_csi_driver.Mount.{Mounter}
use cloudstack_csi_driver.Driver.Csi.{VolumeCapability, mount}
use cloudstack_csi_driver.Driver.Node.{NodeServer, broke, []}
use cloudstack_csi_driver.Driver.Node.Options.{fs_type_of, add_flags, has_mount_option}
use cloudstack_csi_driver.Driver.Node.Table.{Table}
use cloudstack_csi_driver.Driver.Node.Publish.{
  NodePublishVolumeRequest, node_publish_volume, node_unpublish_volume, publish_access,
  publish_mount, is_mounted, mount_point, Mounted, missing, unclear, mounted, base_options, likely,
}

base_options-bind : (readonly : Bool) → has_mount_option (base_options readonly) "bind" ≡ true
unfolding has_mount_option
base_options-bind true = ground arith
base_options-bind false = ground arith

base_options-no_duplicate : (readonly : Bool) → no_duplicate (base_options readonly) ≡ true
unfolding has_mount_option string_dec
base_options-no_duplicate true = refl
base_options-no_duplicate false = refl

add_flags-bind :
    (readonly : Bool) (flags : List String)
    → has_mount_option (add_flags (base_options readonly) flags) "bind" ≡ true
add_flags-bind readonly flags =
    let (_, keeps) =
      add_flags_lem (base_options readonly) flags (base_options-no_duplicate readonly) in
    ground (arith, keeps "bind", base_options-bind readonly)

module _ (L : Sets) (C : Connector) {M : Mounter} (T : Table M) where
  -- The check of a target at which nothing is mounted leaves the mounts, and finds none there.
  record Checked (target : String) (r : Mounted) (s t : M.State) : Type 0 where
    same : r ≢ unclear → (path : String) → T.at t path ≡ T.at s path
    nothing : r ≢ mounted true

  failed-Checked :
      (target : String) (e : M.Error) (s t u : NodeServer L C M) (r : Mounted)
      → T.at s.machine (T.resolve target) ≡ []
      → ((path : String) → T.at t.machine path ≡ T.at s.machine path)
      → likely L C M target (broke e) t ≡ ok r u
      → Checked target r s.machine u.machine
  failed-Checked target e s t u r free same h =
      elim (Outcome-cases (M.path_exists target t.machine)) [
        | inl (b, m, f) ↦ record {
          same =
              λ clear path. ground (arith, same path, T.keeps_exists target t.machine m b path f);
          nothing = λ on. absurd (ground arith);
        }
        | inr (e', m, f) ↦ elim (Outcome-cases (M.unpublish target m)) [
          | inl (_, m', g) ↦ record {
            same = λ clear path. ground (
              arith,
              same path,
              free,
              T.keeps_failed_exists target t.machine m e' path f,
              T.unpublishes target m m' path g,
            );
            nothing = λ on. absurd (ground arith);
          }
          | inr (e'', m', g) ↦ record {
            same = λ clear path.
                ground (arith, same path, T.keeps_failed_exists target t.machine m e' path f);
            nothing = λ on. absurd (ground arith);
          }
        ]
      ]

  is_mounted-Checked :
      (target : String) (s u : NodeServer L C M) (r : Mounted)
      → T.at s.machine (T.resolve target) ≡ []
      → is_mounted L C M target s ≡ ok r u
      → Checked target r s.machine u.machine
  unfolding is_mounted
  is_mounted-Checked target s u r free h =
      elim (Outcome-cases (M.is_likely_not_mount_point target s.machine)) [
        | inr (e, m, f) ↦
            failed-Checked target e s (record s { machine = m }) u r free
              (λ path. T.keeps_failed_likely target s.machine m e path f) (ground arith)
        | inl (true, m, f) ↦ record {
          same = λ clear path. ground (arith, T.keeps_likely target s.machine m true path f);
          nothing = λ on. absurd (ground arith);
        }
        | inl (false, m, f) ↦ absurd (T.mount_point_at target s.machine m f free)
      ]

  -- Where the handler goes on after the check.
  mount_point-at :
      (target : String) (r : Mounted) (s u : NodeServer L C M) (b : Bool) (path : String)
      → mount_point L C M target r s ≡ ok b u
      → (r ≢ unclear) × (T.at u.machine path ≡ T.at s.machine path) × (b ≡ true → r ≡ mounted true)
  mount_point-at target unclear s u b path h = absurd (ground arith)
  mount_point-at target (mounted c) s u b path h =
      ((λ e. absurd cc), ground arith, λ e. ground arith)
  mount_point-at target missing s u b path h = elim (Outcome-cases (M.make_dir target s.machine)) [
    | inr (e, m, f) ↦ absurd (ground arith)
    | inl (_, m, f) ↦ (
      (λ e. absurd cc),
      ground (arith, T.keeps_make_dir target s.machine m tt path f),
      λ e. absurd (ground arith),
    )
  ]

  -- The device is what is mounted at the target, and the other mounts are as they were.
  abbrev pub Published : String → String → M.State → M.State → Type 0
  Published device target s t =
      (path : String)
      → T.at t path ≡ (if path =? T.resolve target then device ∷ [] else T.at s path)

  publish_mount-Published :
      (source target fs_type device : String) (readonly : Bool) (flags : List String)
      (s t : NodeServer L C M)
      → T.at s.machine (T.resolve source) ≡ device ∷ []
      → T.at s.machine (T.resolve target) ≡ []
      → publish_mount L C M source target (base_options readonly) fs_type flags s ≡ ok tt t
      → Published device target s.machine t.machine
  unfolding publish_mount
  publish_mount-Published source target fs_type device readonly flags s t staged free h path =
      let options = add_flags (base_options readonly) flags in
      elim (Outcome-cases (is_mounted L C M target s)) [
        | inr (e, u, f) ↦ absurd (ground arith)
        | inl (r, u, f) ↦
            let c = is_mounted-Checked target s u r free f in
            elim (Outcome-cases (mount_point L C M target r u)) [
              | inr (e, v, g) ↦ absurd (ground arith)
              | inl (true, v, g) ↦
                  absurd (c.nothing ((mount_point-at target r u v true path g).2 refl))
              | inl (false, v, g) ↦
                  let kept : (p : String) → T.at v.machine p ≡ T.at s.machine p = λ p.
                    let (clear, same, _) = mount_point-at target r u v false p g in
                    ground (arith, same, c.same clear p) in
                  elim (Outcome-cases
                    (M.mount source target (fs_type_of fs_type) options v.machine)) [
                      | inr (e, m, k) ↦ absurd (ground arith)
                      | inl (_, m, k) ↦ ground (
                        arith,
                        T.binds source target (fs_type_of fs_type) options v.machine m device path k
                            (add_flags-bind readonly flags)
                            (ground (arith, kept (T.resolve source), staged)),
                        kept path,
                        free,
                      )
                    ]
            ]
      ]

  pub publish_volume-Published :
      (req : NodePublishVolumeRequest) (c : VolumeCapability) (fs_type : String)
      (flags : List String) (device : String) (s t : NodeServer L C M)
      → req.volume_capability ≡ some c
      → c.access_type ≡ mount fs_type flags
      → T.at s.machine (T.resolve req.staging_target_path) ≡ device ∷ []
      → T.at s.machine (T.resolve req.target_path) ≡ []
      → node_publish_volume L C M req s ≡ ok tt t
      → Published device req.target_path s.machine t.machine
  unfolding node_publish_volume publish_access
  publish_volume-Published req c fs_type flags device s t given is_mount staged free h =
      publish_mount-Published req.staging_target_path req.target_path fs_type device req.readonly
        flags s t staged free (ground arith)

  pub unpublish_volume-at :
      (volume_id target : String) (s t : NodeServer L C M) (path : String)
      → node_unpublish_volume L C M volume_id target s ≡ ok tt t
      → T.at t.machine path ≡ (if path =? T.resolve target then [] else T.at s.machine path)
  unfolding node_unpublish_volume
  unpublish_volume-at volume_id target s t path h =
      elim (Outcome-cases (M.unpublish target s.machine)) [
        | inr (e, m, f) ↦ absurd (ground arith)
        | inl (_, m, f) ↦ ground (arith, T.unpublishes target s.machine m path f)
      ]

  -- Where one device is mounted at the staging path and nothing at the target, and
  -- `NodePublishVolume` succeeds on a request for a file system, that device is what is mounted at the
  -- target, whatever the flags of the request, and the other mounts are as they were. Where
  -- `NodeUnpublishVolume` of the target then succeeds, in a state with the same mounts, all mounts are
  -- as they were before the publication.
  pub publish_unpublish :
      (req : NodePublishVolumeRequest) (c : VolumeCapability) (fs_type : String)
      (flags : List String) (volume_id device : String) (s t t' u : NodeServer L C M)
      → req.volume_capability ≡ some c
      → c.access_type ≡ mount fs_type flags
      → T.at s.machine (T.resolve req.staging_target_path) ≡ device ∷ []
      → T.at s.machine (T.resolve req.target_path) ≡ []
      → node_publish_volume L C M req s ≡ ok tt t
      → ((path : String) → T.at t'.machine path ≡ T.at t.machine path)
      → node_unpublish_volume L C M volume_id req.target_path t' ≡ ok tt u
      → Published device req.target_path s.machine t.machine
        × ((path : String) → T.at u.machine path ≡ T.at s.machine path)
  publish_unpublish req c fs_type flags volume_id device s t t' u given is_mount staged free h same
        run =
      let published =
        publish_volume-Published req c fs_type flags device s t given is_mount staged free h in
      (
        published,
        λ path. ground (
          arith,
          unpublish_volume-at volume_id req.target_path t' u path run,
          same path,
          published path,
          free,
        ),
      )
