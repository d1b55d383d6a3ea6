-- ===== src/Driver/Node/Locks.antt =====
-- What the handlers of the node leave of its locks.
use cloudstack_csi_driver.Prelude.{Option, none, some, []}
use cloudstack_csi_driver.Prelude.Prog.{Outcome-cases}
use cloudstack_csi_driver.Driver.Node.Options.{add_flags, fs_type_of}
use cloudstack_csi_driver.Driver.Node.Expand.{path_of}
use cloudstack_csi_driver.Prelude.{String, List, ◌≡◌, arith, Option-cases, inl, inr}
use cloudstack_csi_driver.Prelude.Prog.{final}
use cloudstack_csi_driver.Util.VolumeLocks.{Sets}
use cloudstack_csi_driver.Util.VolumeLocks
use cloudstack_csi_driver.Cloud.{Connector}
use cloudstack_csi_driver.Driver.Csi.{VolumeCapability, AccessType, mount, block, no_access_type}
use cloudstack_csi_driver.Mount.{Mounter}
use cloudstack_csi_driver.Driver.Node.{NodeServer, NodeHandler, with_lock}
use cloudstack_csi_driver.Driver.Node.Stage.{
  NodeStageVolumeRequest, stage, stage_access, format_and_grow, node_stage_volume, unstage,
  node_unstage_volume,
}
use cloudstack_csi_driver.Driver.Node.Expand.{
  NodeExpandVolumeRequest, grow, grow_capability, node_expand_volume,
}

-- The program changes no lock.
abbrev KeepsLocks :
    {L : Sets} {C : Connector} {M : Mounter} {A : Type 0} → NodeHandler L C M A → Type 0
KeepsLocks {L} {C} {M} p = (s : NodeServer L C M) → (final (p s)).volume_locks ≡ s.volume_locks

module _ (L : Sets) (C : Connector) (M : Mounter) where
  -- The program leaves each volume locked or free as it was.
  abbrev pub ReturnsLocks : {A : Type 0} → NodeHandler L C M A → Type 0
  ReturnsLocks p =
      (s : NodeServer L C M) (j : String)
      → L.has (final (p s)).volume_locks j ≡ L.has s.volume_locks j

  with_lock-ReturnsLocks :
      {A : Type 0} (id : String) (body : NodeHandler L C M A)
      → KeepsLocks body
      → ReturnsLocks (with_lock id body)
  unfolding with_lock VolumeLocks.try_acquire VolumeLocks.release
  with_lock-ReturnsLocks id body k s j = ground (
    arith,
    k (record s { volume_locks = L.insert s.volume_locks id }),
    L.has-delete (L.insert s.volume_locks id) id j,
    L.has-insert s.volume_locks id j,
  )

  stage-KeepsLocks :
      (id target fs_type : String) (options : List String)
      → KeepsLocks (stage L C M id target fs_type options)
  unfolding stage format_and_grow
  stage-KeepsLocks id target fs_type options s = ground arith

  unstage-KeepsLocks : (target : String) → KeepsLocks (unstage L C M target)
  unfolding unstage
  unstage-KeepsLocks target s = ground arith

  grow-KeepsLocks : (id path : String) → KeepsLocks (grow L C M id path)
  unfolding grow
  grow-KeepsLocks id path s = ground arith

  stage_access-ReturnsLocks :
      (id target : String) (access : AccessType)
      → ReturnsLocks (stage_access L C M id target access)
  unfolding stage_access
  stage_access-ReturnsLocks id target no_access_type s j = ground arith
  stage_access-ReturnsLocks id target block s j = ground arith
  stage_access-ReturnsLocks id target (mount fs_type flags) s j =
      let body = stage L C M id target (fs_type_of fs_type) (add_flags [] flags) in
      ground (
        arith,
        with_lock-ReturnsLocks id body
            (stage-KeepsLocks id target (fs_type_of fs_type) (add_flags [] flags)) s j,
      )

  node_stage_volume-ReturnsLocks :
      (req : NodeStageVolumeRequest) → ReturnsLocks (node_stage_volume L C M req)
  unfolding node_stage_volume
  node_stage_volume-ReturnsLocks req s j = elim (Option-cases req.volume_capability) [
    | inl e ↦ rw (e, node_stage_volume) (ground arith)
    | inr (c, e) ↦
        let rest =
          stage_access-ReturnsLocks req.volume_id req.staging_target_path c.access_type s j in
        rw (e, node_stage_volume) (ground (arith, rest))
  ]

  node_unstage_volume-ReturnsLocks :
      (id target : String) → ReturnsLocks (node_unstage_volume L C M id target)
  unfolding node_unstage_volume
  node_unstage_volume-ReturnsLocks id target s j =
      ground
        (arith, with_lock-ReturnsLocks id (unstage L C M target) (unstage-KeepsLocks target) s j)

  grow_capability-ReturnsLocks :
      (id path : String) (c : Option VolumeCapability)
      → ReturnsLocks (grow_capability L C M id path c)
  unfolding grow_capability
  grow_capability-ReturnsLocks id path (some c) s j =
      ground (arith, with_lock-ReturnsLocks id (grow L C M id path) (grow-KeepsLocks id path) s j)
  grow_capability-ReturnsLocks id path none s j =
      elim (Outcome-cases (M.is_block_device path s.machine)) [
        | inl (b, m, e) ↦
            (ground (
              arith,
              with_lock-ReturnsLocks id (grow L C M id path) (grow-KeepsLocks id path)
                  (record s { machine = m }) j,
            ))
        | inr (x, m, e) ↦ ground arith
      ]

  node_expand_volume-ReturnsLocks :
      (req : NodeExpandVolumeRequest) → ReturnsLocks (node_expand_volume L C M req)
  unfolding node_expand_volume
  node_expand_volume-ReturnsLocks req s j =
      let path = path_of req.staging_target_path req.volume_path in
      ground (arith, grow_capability-ReturnsLocks req.volume_id path req.volume_capability s j)

  -- For every request, every answer of the mounter and of the connector, and every outcome, each of
  -- `NodeStageVolume`, `NodeUnstageVolume` and `NodeExpandVolume` leaves each volume locked or free
  -- as it was.
  pub handlers-ReturnLocks :
      ((req : NodeStageVolumeRequest) → ReturnsLocks (node_stage_volume L C M req))
      × ((id target : String) → ReturnsLocks (node_unstage_volume L C M id target))
      × ((req : NodeExpandVolumeRequest) → ReturnsLocks (node_expand_volume L C M req))
  handlers-ReturnLocks = (
    node_stage_volume-ReturnsLocks, node_unstage_volume-ReturnsLocks,
    node_expand_volume-ReturnsLocks,
  )
