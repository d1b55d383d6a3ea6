-- ===== src/Cloud/Metadata/Laws.antt =====
-- Where the identifier of the machine comes from.
use cloudstack_csi_driver.Prelude.{
  string_dec, ◌⊎◌, String, true, some, ◌=?◌, ◌≡◌, ◌≢◌, ◌↔◌, Option-cases, arith, Bool-cases, inl,
  inr, refl, ◌⊎◌,
}
use cloudstack_csi_driver.Prelude.Strings.{lowers_to, lines}
use cloudstack_csi_driver.Cloud.Metadata.{
  Machine, CloudInitV1, metadata_instance_id, from_cloud_init, from_ignition,
  cloud_init_instance_file_path, ignition_metadata_file_path, read_cloud_init, read_ignition, scan,
}

-- The file of cloud-init is there, names this cloud, and gives an identifier that is not empty.
pub record IsCloudInit (m : Machine) (id : String) : Type 0 where
  pub there : m.stat cloud_init_instance_file_path ≡ true
  pub text : String
  pub content : m.read_file cloud_init_instance_file_path ≡ some text
  pub data_ : CloudInitV1
  pub parsed : m.unmarshal text ≡ some data_
  pub cloud : lowers_to data_.cloud_name "cloudstack" ≡ true
  pub same : data_.instance_id ≡ id
  pub given : id ≢ ""

pub record IsIgnition (m : Machine) (id : String) : Type 0 where
  pub there : m.stat ignition_metadata_file_path ≡ true
  pub text : String
  pub content : m.open_file ignition_metadata_file_path ≡ some text
  pub same : scan (lines text) "" ≡ id
  pub given : id ≢ ""

from_cloud_init-IsCloudInit :
    (m : Machine) (id : String) → id ≢ "" → from_cloud_init m ≡ id → IsCloudInit m id
unfolding from_cloud_init read_cloud_init
from_cloud_init-IsCloudInit m id ne h =
    elim (Option-cases (m.read_file cloud_init_instance_file_path)) [
      | inl missing ↦ absurd (ground arith)
      | inr (text, e) ↦ elim (Option-cases (m.unmarshal text)) [
        | inl broken ↦ absurd (ground arith)
        | inr (v, f) ↦ record {
          there = ground arith;
          text = text;
          content = e;
          data_ = v;
          parsed = f;
          cloud = ground arith;
          same = ground arith;
          given = ne;
        }
      ]
    ]

from_ignition-IsIgnition :
    (m : Machine) (id : String) → id ≢ "" → from_ignition m ≡ id → IsIgnition m id
unfolding from_ignition read_ignition
from_ignition-IsIgnition m id ne h = elim (Option-cases (m.open_file ignition_metadata_file_path)) [
  | inl missing ↦ absurd (ground arith)
  | inr (text, e) ↦ record {
    there = ground arith;
    text = text;
    content = e;
    same = ground arith;
    given = ne;
  }
]

IsCloudInit-from_cloud_init :
    (m : Machine) (id : String) → IsCloudInit m id → from_cloud_init m ≡ id
unfolding from_cloud_init read_cloud_init
IsCloudInit-from_cloud_init m id c = ground (arith, c.there, c.content, c.parsed, c.cloud, c.same)

IsIgnition-from_ignition : (m : Machine) (id : String) → IsIgnition m id → from_ignition m ≡ id
unfolding from_ignition read_ignition
IsIgnition-from_ignition m id c = ground (arith, c.there, c.content, c.same)

-- Where an identifier that is not empty comes from: the variable NODE_ID, else the file of
-- cloud-init, else the file of Ignition.
abbrev pub Finds : Machine → String → Type 0
Finds m id =
    ((m.node_id ≡ id) × (id ≢ ""))
    ⊎ ((m.node_id ≡ "") × IsCloudInit m id)
    ⊎ ((m.node_id ≡ "") × ((j : String) → ¬ (IsCloudInit m j)) × IsIgnition m id)

finds : (m : Machine) (id : String) → id ≢ "" → metadata_instance_id m ≡ id → Finds m id
unfolding metadata_instance_id
finds m id ne h = elim (Bool-cases (m.node_id =? "")) [
  | inr set ↦ inl (ground arith, ne)
  | inl unset ↦ elim (Bool-cases (from_cloud_init m =? "")) [
    | inr some_id ↦ inr (inl (ground arith, from_cloud_init-IsCloudInit m id ne (ground arith)))
    | inl no_id ↦ inr (
        inr (
          ground arith,
          λ j c. ground (arith, IsCloudInit-from_cloud_init m j c, c.given),
          from_ignition-IsIgnition m id ne (ground arith),
        ))
  ]
]

no_cloud_init : (m : Machine) → ((j : String) → ¬ (IsCloudInit m j)) → from_cloud_init m ≡ ""
no_cloud_init m h = elim (string_dec (from_cloud_init m) "") [
  | yes e ↦ e
  | no ne ↦
      absurd (h (from_cloud_init m) (from_cloud_init-IsCloudInit m (from_cloud_init m) ne refl))
]

found : (m : Machine) (id : String) → Finds m id → (metadata_instance_id m ≡ id) × (id ≢ "")
unfolding metadata_instance_id
found m id (inl (e, ne)) = (ground arith, ne)
found m id (inr (inl (unset, c))) =
    (ground (arith, IsCloudInit-from_cloud_init m id c, c.given), c.given)
found m id (inr (inr (unset, no_c, c))) =
    (ground (arith, no_cloud_init m no_c, IsIgnition-from_ignition m id c), c.given)

-- An identifier that is not empty is the result exactly if it is that of the variable NODE_ID, or
-- this is empty and it is the one that the file of cloud-init gives for this cloud, or that file
-- gives none either and it is the one that the file of Ignition gives.
pub metadata_instance_id_iff :
    (m : Machine) (id : String) → ((metadata_instance_id m ≡ id) × (id ≢ "")) ↔ Finds m id
metadata_instance_id_iff m id = (λ (h, ne). finds m id ne h, found m id)
