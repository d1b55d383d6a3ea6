-- ===== src/Driver/Options/Laws.antt =====
-- Which options are valid.
use cloudstack_csi_driver.Prelude.{string_dec, ◌↔◌, String, ◌≡◌, inl, inr, arith, true, Bool-cases}
use cloudstack_csi_driver.Prelude.Int.{pos, ◌≤ℤ◌}
use cloudstack_csi_driver.Driver.Options.{
  Options, validate, validate_mode, with_node, add_flags, controller_mode, node_mode, all_mode,
}

pub data IsMode (mode : String) : Type 0 where
  is_controller : mode ≡ controller_mode → IsMode mode
  is_node : mode ≡ node_mode → IsMode mode
  is_all : mode ≡ all_mode → IsMode mode

pub validate_mode-IsMode : (mode : String) → validate_mode mode ≡ true → IsMode mode
unfolding validate_mode
validate_mode-IsMode mode h = elim (string_dec mode all_mode) [
  | yes e ↦ is_all e
  | no n ↦ elim (string_dec mode controller_mode) [
    | yes e ↦ is_controller e
    | no k ↦ elim (string_dec mode node_mode) [ yes e ↦ is_node e | no j ↦ absurd (ground arith) ]
  ]
]

-- The limit of a driver with a node service.
abbrev pub InRange : Options → Type 0
InRange o =
    with_node o ≡ true → (pos 1 ≤ℤ o.volume_attach_limit) × (o.volume_attach_limit ≤ℤ pos 256)

pub validate_iff : (o : Options) → (validate o ≡ true) ↔ InRange o
unfolding validate
validate_iff o = (
  λ h w. ground arith,
  λ r. elim (Bool-cases (with_node o)) [ inl w ↦ ground (arith, r w) | inr w ↦ ground arith ],
)

add_flags_valid : (o : Options) → validate ((add_flags o).0) ≡ true
unfolding validate add_flags with_node
add_flags_valid o = elim (Bool-cases (with_node o)) [ inl w ↦ ground arith | inr w ↦ ground arith ]
