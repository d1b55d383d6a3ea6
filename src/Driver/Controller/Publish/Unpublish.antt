-- ===== src/Driver/Controller/Publish/Unpublish.antt =====
-- When `ControllerUnpublishVolume` of pkg/driver/controller.go succeeds, and what it did then.
use cloudstack_csi_driver.Prelude.{
  String, true, false, ◌≡◌, ◌=?◌, arith, Bool-cases, inl, inr, ◌↔◌, ◌⊎◌,
}
use cloudstack_csi_driver.Prelude.Prog.{ok, err, Outcome-cases}
use cloudstack_csi_driver.Util.VolumeLocks.{Sets}
use cloudstack_csi_driver.Cloud.{Connector, Volume, Vm, Err, is_not_found}
use cloudstack_csi_driver.Driver.Controller.{Server}
use cloudstack_csi_driver.Driver.Controller.Publish.{controller_unpublish_volume}

-- The machine that the request means: the one that the volume is on, or none is named.
abbrev pub IsMeant : Volume → String → Type 0
IsMeant vol node = ((node =? "") ≡ true) ⊎ ((vol.virtual_machine_id =? node) ≡ true)

-- The calls of the connector in the four cases, from its state before to that after: there is no such
-- volume; it is on another machine than the one that is named; there is no such machine; or the
-- volume was detached.
pub data Unpublished (C : Connector) (id node : String) (c c' : C.State) : Type 0 where
  no_volume :
      (e : Err)
      → C.get_volume_by_id id c ≡ err e c'
      → is_not_found e ≡ true
      → Unpublished C id node c c'
  elsewhere :
      (vol : Volume)
      → C.get_volume_by_id id c ≡ ok vol c'
      → (node =? "") ≡ false
      → (vol.virtual_machine_id =? node) ≡ false
      → Unpublished C id node c c'
  no_machine :
      (vol : Volume) (c₁ : C.State) (e : Err)
      → C.get_volume_by_id id c ≡ ok vol c₁
      → IsMeant vol node
      → C.get_vm_by_id node c₁ ≡ err e c'
      → is_not_found e ≡ true
      → Unpublished C id node c c'
  detached :
      (vol : Volume) (c₁ c₂ : C.State) (vm : Vm)
      → C.get_volume_by_id id c ≡ ok vol c₁
      → IsMeant vol node
      → C.get_vm_by_id node c₁ ≡ ok vm c₂
      → C.detach_volume id c₂ ≡ ok tt c'
      → Unpublished C id node c c'

module _ (L : Sets) (C : Connector) (id node : String) (s : Server L C) where
  meant_succeeds :
      (vol : Volume) (c₁ c' : C.State)
      → C.get_volume_by_id id s.cloud ≡ ok vol c₁
      → IsMeant vol node
      → controller_unpublish_volume L C id node s ≡ ok tt (record s { cloud = c' })
      → Unpublished C id node s.cloud c'
  unfolding controller_unpublish_volume
  meant_succeeds vol c₁ c' found meant h = elim (Outcome-cases (C.get_vm_by_id node c₁)) [
    | inr (e, c₂, f) ↦ elim (Bool-cases (is_not_found e)) [
      | inl missing ↦ no_machine vol c₁ e found meant (ground arith) missing
      | inr other ↦ absurd (ground arith)
    ]
    | inl (vm, c₂, f) ↦ elim (Outcome-cases (C.detach_volume id c₂)) [
      | inr (e, c₃, g) ↦ absurd (ground arith)
      | inl (_, c₃, g) ↦ detached vol c₁ c₂ vm found meant f (ground arith)
    ]
  ]

  only_if :
      (c' : C.State)
      → controller_unpublish_volume L C id node s ≡ ok tt (record s { cloud = c' })
      → ((id =? "") ≡ false) × Unpublished C id node s.cloud c'
  unfolding controller_unpublish_volume
  only_if c' h = (
    ground arith,
    elim (Outcome-cases (C.get_volume_by_id id s.cloud)) [
      | inr (e, c₁, f) ↦ elim (Bool-cases (is_not_found e)) [
        | inl missing ↦ no_volume e (ground arith) missing
        | inr other ↦ absurd (ground arith)
      ]
      | inl (vol, c₁, f) ↦ elim (Bool-cases (node =? "")) [
        | inl empty ↦ meant_succeeds vol c₁ c' f (inl empty) h
        | inr named ↦ elim (Bool-cases (vol.virtual_machine_id =? node)) [
          | inl here ↦ meant_succeeds vol c₁ c' f (inr here) h
          | inr other ↦ elsewhere vol (ground arith) named other
        ]
      ]
    ],
  )

  if_so :
      (c' : C.State)
      → (id =? "") ≡ false
      → Unpublished C id node s.cloud c'
      → controller_unpublish_volume L C id node s ≡ ok tt (record s { cloud = c' })
  unfolding controller_unpublish_volume
  if_so c' has_volume (no_volume e f missing) = ground arith
  if_so c' has_volume (elsewhere vol f named other) = ground arith
  if_so c' has_volume (no_machine vol c₁ e f (inl empty) g missing) = ground arith
  if_so c' has_volume (no_machine vol c₁ e f (inr here) g missing) = ground arith
  if_so c' has_volume (detached vol c₁ c₂ vm f (inl empty) g k) = ground arith
  if_so c' has_volume (detached vol c₁ c₂ vm f (inr here) g k) = ground arith

  -- Whatever the connector answers: `ControllerUnpublishVolume` succeeds, and leaves the connector in a
  -- state, exactly if the identifier of the volume is not empty and the calls that lead to that state
  -- found no such volume, or the volume on another machine than the one that is named, or no such
  -- machine, or they detached the volume from the machine. An empty name of a node is looked up as
  -- any other: where no machine has it, the answer is a success and nothing is detached.
  pub unpublish_iff :
      (c' : C.State)
      → (controller_unpublish_volume L C id node s ≡ ok tt (record s { cloud = c' }))
        ↔ (((id =? "") ≡ false) × Unpublished C id node s.cloud c')
  unpublish_iff c' = (only_if c', λ (has_volume, u). if_so c' has_volume u)
