-- ===== src/Syncer/Labels/Laws.antt =====
-- What a label stands for.
use text.Mathlib.TextLemmas.{nil-append, cons-append}
use cloudstack_csi_driver.Prelude.{
  string_dec, String, ◌<>◌, false, [], ◌∷◌, ◌==◌, ◌≡◌, refl, arith, All, codes, ap,
}
use cloudstack_csi_driver.Prelude.Maps.{insert}
use cloudstack_csi_driver.Syncer.Labels.{cut, create_labels_set}

cut-sep :
    (key value : String)
    → All (λ c. (c == b'=') ≡ false) (codes key)
    → cut b'=' (key <> ("=" <> value)) ≡ key ∷ value ∷ []
unfolding cut
cut-sep String.[] value h =
    rw (nil-append ("=" <> value), cons-append _ String.[] value, nil-append value) refl
cut-sep (String.◌∷◌ c key) value h =
    rw (cons-append c key ("=" <> value)) (ground (arith, h.0, cut-sep key value h.1))

-- The label `key=value`, where the key has no `=`, stands for the one entry of the key with the value,
-- which may have some.
pub create_labels_set_lem :
    (key value : String)
    → All (λ c. (c == b'=') ≡ false) (codes key)
    → create_labels_set (key <> ("=" <> value)) ≡ (key, value) ∷ []
unfolding create_labels_set insert cut
create_labels_set_lem key value h = elim (string_dec (key <> ("=" <> value)) "") [
  | yes empty ↦ ground (arith, cut-sep key value h, ap (cut b'=') empty)
  | no ne ↦ ground (arith, cut-sep key value h)
]
