-- ===== src/Cloud/Fake/Reachable.antt =====
-- What each operation of the fake connector keeps.
use text.Mathlib.TextLemmas.{append_cancel_left}
use cloudstack_csi_driver.Prelude.{
  ℕ, ◌≤◌, String, ◌<>◌, none, some, ◌≡◌, ◌≢◌, arith, Option-cases, Bool-cases, inl, inr, [], ◌∷◌,
  refl, string_dec, ap, codes, ◌∙◌,
}
use cloudstack_csi_driver.Prelude.Strconv.{codes-append}
use cloudstack_csi_driver.Prelude.Strings.{starts_with}
use cloudstack_csi_driver.Prelude.Int.{ℤ, mul64, ltb_ℤ}
use cloudstack_csi_driver.Prelude.Maps.{lookup, lookup-insert, lookup-erase}
use cloudstack_csi_driver.Prelude.Prog.{final}
use cloudstack_csi_driver.Util.Gb.{giga_bytes_to_bytes}
use cloudstack_csi_driver.Cloud.{Volume}
use cloudstack_csi_driver.Cloud.Fake.{
  FakeConnector, Supply, made_volume, create_volume, delete_volume, expand_volume,
  create_volume_from_snapshot, create_snapshot, delete_snapshot, new, first_volume,
}
use cloudstack_csi_driver.Cloud.Fake.Laws.{
  Agrees, delete_volume-Agrees, expand_volume-Agrees, create_volume-Agrees,
}

abbrev pub copy_id : String → String
copy_id name = "fake-vol-from-snap-" <> name

-- The identifiers that are drawn are different, from one another and from those of the program.
pub record IsSupply (U : Supply) : Type 0 where
  pub distinct : (m n : ℕ) → m ≢ n → U.uuid m ≢ U.uuid n
  pub no_first : (n : ℕ) → U.uuid n ≢ first_volume.id
  pub no_copy : (n : ℕ) (name : String) → U.uuid n ≢ copy_id name

pub record IsReachable (U : Supply) (s : FakeConnector) : Type 0 where
  pub agrees : Agrees s
  -- Identifiers of volumes were drawn before.
  pub old :
      (id : String) (v : Volume) (n : ℕ)
      → lookup id s.volumes_by_id ≡ some v
      → s.drawn ≤ n
      → id ≢ U.uuid n
  pub copied :
      (name : String) (v : Volume) → lookup (copy_id name) s.volumes_by_id ≡ some v → v.name ≡ name

module _ {U : Supply} (u : IsSupply U) where
  no_volume : (s : FakeConnector) → IsReachable U s → lookup (U.uuid s.drawn) s.volumes_by_id ≡ none
  no_volume s r = elim (Option-cases (lookup (U.uuid s.drawn) s.volumes_by_id)) [
    | inl e ↦ e
    | inr (v, e) ↦ absurd (r.old (U.uuid s.drawn) v s.drawn e (omega arith) refl)
  ]

  pub create-IsReachable :
      (offering zone name : String) (size : ℤ) (s : FakeConnector)
      → IsReachable U s
      → IsReachable U (final (create_volume U offering zone name size s))
  unfolding create_volume
  create-IsReachable offering zone name size s r =
      let w = made_volume (U.uuid s.drawn) name (giga_bytes_to_bytes size) offering zone in
      record {
        agrees = create_volume-Agrees U offering zone name size s r.agrees (no_volume s r);
        old = λ i v n h le. ground (
          arith,
          lookup-insert i (U.uuid s.drawn) w s.volumes_by_id,
          r.old i v n,
          u.distinct s.drawn n,
        );
        copied = λ n v h. ground (
          arith,
          lookup-insert (copy_id n) (U.uuid s.drawn) w s.volumes_by_id,
          r.copied n v,
          u.no_copy s.drawn n,
        );
      }

  pub copy-IsReachable :
      (zone name project snap : String) (size : ℤ) (s : FakeConnector)
      → IsReachable U s
      → IsReachable U (final (create_volume_from_snapshot zone name project snap size s))
  unfolding create_volume_from_snapshot
  copy-IsReachable zone name project snap size s r =
      let w =
        made_volume (copy_id name) name (giga_bytes_to_bytes size) "fake-disk-offering" zone in
      record {
        agrees = record {
          same_name = λ n v h.
              ground (arith, r.agrees.same_name n v, lookup-insert n name w s.volumes_by_name);
          same_volume = λ n v h. ground (
            arith,
            r.agrees.same_name n v,
            r.agrees.same_volume n v,
            r.copied name v,
            lookup-insert n name w s.volumes_by_name,
            lookup-insert v.id (copy_id name) w s.volumes_by_id,
          );
          same_id = λ i v h.
              ground
                (arith, r.agrees.same_id i v, lookup-insert i (copy_id name) w s.volumes_by_id);
        };
        old = λ i v n h le. ground (
          arith,
          lookup-insert i (copy_id name) w s.volumes_by_id,
          r.old i v n,
          u.no_copy n name,
        );
        copied = λ n v h. ground (
          arith,
          lookup-insert (copy_id n) (copy_id name) w s.volumes_by_id,
          r.copied n v,
          append_cancel_left "fake-vol-from-snap-" n name,
        );
      }

  pub delete-IsReachable :
      (id : String) (s : FakeConnector)
      → IsReachable U s
      → IsReachable U (final (delete_volume id s))
  unfolding delete_volume
  delete-IsReachable id s r = record {
    agrees = delete_volume-Agrees id s r.agrees;
    old = λ i v n h le. ground (arith, r.old i v n, lookup-erase i id s.volumes_by_id);
    copied = λ n v h. ground (arith, r.copied n v, lookup-erase (copy_id n) id s.volumes_by_id);
  }

  -- A volume that is there after an expansion was there before, with the same name.
  expanded :
      (id : String) (size : ℤ) (s : FakeConnector) (i : String) (v : Volume)
      → lookup i (final (expand_volume id size s)).volumes_by_id ≡ some v
      → (w : Volume) × (lookup i s.volumes_by_id ≡ some w) × (w.name ≡ v.name)
  unfolding expand_volume
  expanded id size s i v h =
      let bytes = mul64 (mul64 (mul64 size 1024) 1024) 1024 in
      elim (Option-cases (lookup id s.volumes_by_id)) [
        | inl e ↦ (v, ground arith, refl)
        | inr (w, e) ↦ elim (Bool-cases (ltb_ℤ w.size bytes)) [
          | inr same ↦ (v, ground arith, refl)
          | inl larger ↦ elim (string_dec i id) [
            | yes at_id ↦ (
              w,
              ground arith,
              ground (arith, lookup-insert i id (record w { size = bytes }) s.volumes_by_id),
            )
            | no elsewhere ↦ (
              v,
              ground (arith, lookup-insert i id (record w { size = bytes }) s.volumes_by_id),
              refl,
            )
          ]
        ]
      ]

  drawn-expand :
      (id : String) (size : ℤ) (s : FakeConnector)
      → (final (expand_volume id size s)).drawn ≡ s.drawn
  unfolding expand_volume
  drawn-expand id size s = ground arith

  pub expand-IsReachable :
      (id : String) (size : ℤ) (s : FakeConnector)
      → IsReachable U s
      → IsReachable U (final (expand_volume id size s))
  expand-IsReachable id size s r = record {
    agrees = expand_volume-Agrees id size s r.agrees;
    old = λ i v n h le.
        let (w, e, same) = expanded id size s i v h in
        r.old i w n e (omega (arith, le, drawn-expand id size s));
    copied = λ n v h.
        let (w, e, same) = expanded id size s (copy_id n) v h in ground (arith, r.copied n w);
  }

  keep-IsReachable :
      (s t : FakeConnector)
      → t.volumes_by_id ≡ s.volumes_by_id
      → t.volumes_by_name ≡ s.volumes_by_name
      → s.drawn ≤ t.drawn
      → IsReachable U s
      → IsReachable U t
  keep-IsReachable s t e f le r = record {
    agrees = record {
      same_name = λ n v h. ground (arith, r.agrees.same_name n v);
      same_volume = λ n v h. ground (arith, r.agrees.same_volume n v);
      same_id = λ i v h. ground (arith, r.agrees.same_id i v);
    };
    old = λ i v n h k. ground (arith, r.old i v n);
    copied = λ n v h. ground (arith, r.copied n v);
  }

  pub snapshot-IsReachable :
      (volume_id name : String) (s : FakeConnector)
      → IsReachable U s
      → IsReachable U (final (create_snapshot U volume_id name s))
  unfolding create_snapshot
  snapshot-IsReachable volume_id name s r =
      keep-IsReachable s (final (create_snapshot U volume_id name s)) (ground arith) (ground arith)
        (ground arith) r

  pub drop-IsReachable :
      (id : String) (s : FakeConnector)
      → IsReachable U s
      → IsReachable U (final (delete_snapshot id s))
  unfolding delete_snapshot
  drop-IsReachable id s r =
      keep-IsReachable s (final (delete_snapshot id s)) (ground arith) (ground arith) (ground arith)
        r

  first-not-copy : (name : String) → first_volume.id ≢ copy_id name
  first-not-copy name e =
      ground
        (arith, ap (starts_with (b'f' ∷ [])) (ap codes e ∙ codes-append "fake-vol-from-snap-" name))

  pub new-IsReachable : IsReachable U new
  unfolding new lookup
  new-IsReachable = record {
    agrees = record {
      same_name = λ name v e. ground arith;
      same_volume = λ name v e. ground arith;
      same_id = λ id v e. ground arith;
    };
    old = λ i v n h le e. ground (arith, u.no_first n);
    copied = λ name v h. ground (arith, first-not-copy name);
  }
