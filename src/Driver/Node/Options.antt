-- ===== src/Driver/Node/Options.antt =====
-- The mount options and the file-system types of pkg/driver/node.go.
pub mod Laws
use cloudstack_csi_driver.Prelude.{
  ℕ, ◌+◌, String, Bool, true, false, not, ◌&&◌, ◌||◌, List, [], ◌∷◌, ◌++◌, map, ◌=?◌, ◌==◌, leb,
  if◌then◌else◌, codes,
}
use cloudstack_csi_driver.Prelude.Strings.{lowers_to}

unfoldable pub has_mount_option : List String → String → Bool
has_mount_option [] opt = false
has_mount_option (o ∷ options) opt = if o =? opt then true else has_mount_option options opt

-- The loop over the flags of a volume capability.
unfoldable pub add_flags : List String → List String → List String
add_flags options [] = options
add_flags options (f ∷ flags) =
    add_flags (if not (has_mount_option options f) then options ++ (f ∷ []) else options) flags

-- `ValidFSTypes[strings.ToLower(fsType)]`
unfoldable pub is_valid_fs_type : String → Bool
unfolding lowers_to
is_valid_fs_type fs_type =
    lowers_to fs_type "ext2"
    || lowers_to fs_type "ext3"
    || lowers_to fs_type "ext4"
    || lowers_to fs_type "xfs"

-- The type that a request means: `defaultFsType` for none.
abbrev pub fs_type_of : String → String
fs_type_of fs_type = if fs_type =? "" then "ext4" else fs_type
