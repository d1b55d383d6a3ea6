-- ===== src/Cloud/Metadata.antt =====
-- pkg/cloud/metadata.go: the identifier of the virtual machine that the driver runs on, out of the
-- environment, of cloud-init or of Ignition.
pub mod Laws
use cloudstack_csi_driver.Prelude.{
  String, Bool, true, false, not, Option, none, some, List, [], ◌∷◌, ◌=?◌, if◌then◌else◌, codes,
}
use cloudstack_csi_driver.Prelude.Strings.{contains, lowers_to, split_after, lines}

pub record CloudInitV1 : Type 0 where
  pub cloud_name : String
  pub instance_id : String
  pub zone : String

-- What the code asks of the machine: the variable NODE_ID, empty where it is not set, whether
-- `os.Stat` of a path gives no error, what a file holds (`none` for an error, and for a file that is
-- read by lines the text up to an error), and what encoding/json finds under `v1`.
pub record Machine : Type 0 where
  pub node_id : String
  pub stat : String → Bool
  pub read_file : String → Option String
  pub open_file : String → Option String
  pub unmarshal : String → Option CloudInitV1

abbrev pub cloud_init_instance_file_path : String
cloud_init_instance_file_path = "/run/cloud-init/instance-data.json"

abbrev pub ignition_metadata_file_path : String
ignition_metadata_file_path = "/run/metadata/coreos"

-- `data.V1`, unless the cloud is another one.
abbrev pub supported : Option CloudInitV1 → Option CloudInitV1
supported none = none
supported (some v) = if lowers_to v.cloud_name "cloudstack" then some v else none

abbrev pub unmarshalled : Machine → Option String → Option CloudInitV1
unmarshalled m none = none
unmarshalled m (some b) = supported (m.unmarshal b)

unfoldable pub read_cloud_init : Machine → String → Option CloudInitV1
read_cloud_init m path = unmarshalled m (m.read_file path)

-- What follows the only `=` of a line; else the identifier so far.
abbrev pub second : List String → String → String
second (key ∷ value ∷ []) instance_id = value
second [] instance_id = instance_id
second (key ∷ []) instance_id = instance_id
second (key ∷ value ∷ x ∷ xs) instance_id = instance_id

unfoldable pub scan : List String → String → String
unfolding split_after
scan [] instance_id = instance_id
scan (line ∷ rest) instance_id = scan rest (
    if contains (codes "COREOS_CLOUDSTACK_INSTANCE_ID") (codes line)
    then second (split_after b'=' line) instance_id
    else instance_id)

abbrev pub scanned : Option String → Option String
scanned none = none
scanned (some text) = some (scan (lines text) "")

unfoldable pub read_ignition : Machine → String → Option String
read_ignition m path = scanned (m.open_file path)

-- An identifier that is not there is the empty text.
abbrev pub instance_of : Option CloudInitV1 → String
instance_of none = ""
instance_of (some v) = v.instance_id

abbrev pub text_or_empty : Option String → String
text_or_empty none = ""
text_or_empty (some id) = id

unfoldable pub from_cloud_init : Machine → String
from_cloud_init m =
    if m.stat cloud_init_instance_file_path
    then instance_of (read_cloud_init m cloud_init_instance_file_path)
    else ""

unfoldable pub from_ignition : Machine → String
from_ignition m =
    if m.stat ignition_metadata_file_path
    then text_or_empty (read_ignition m ignition_metadata_file_path)
    else ""

unfoldable pub metadata_instance_id : Machine → String
metadata_instance_id m =
    if not (m.node_id =? "")
    then m.node_id
    else if not (from_cloud_init m =? "")
    then from_cloud_init m
    else from_ignition m
