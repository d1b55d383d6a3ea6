-- ===== src/Driver/Node/Options/Laws.antt =====
-- The mount options that the flags of a request give.
use cloudstack_csi_driver.Prelude.{
  String, Bool, true, false, ◌||◌, List, [], ◌∷◌, ◌++◌, ◌≡◌, refl, arith, ◌=?◌, if◌then◌else◌,
  Bool-cases, inl, inr,
}
use cloudstack_csi_driver.Driver.Node.Options.{has_mount_option, add_flags}

-- No option stands twice.
abbrev pub no_duplicate : List String → Bool
no_duplicate [] = true
no_duplicate (o ∷ options) = if has_mount_option options o then false else no_duplicate options

has_mount_option-snoc :
    (options : List String) (f o : String)
    → has_mount_option (options ++ (f ∷ [])) o
      ≡ (if f =? o then true else has_mount_option options o)
unfolding has_mount_option
has_mount_option-snoc [] f o = ground arith
has_mount_option-snoc (x ∷ options) f o = ground (arith, has_mount_option-snoc options f o)

no_duplicate-snoc :
    (options : List String) (f : String)
    → no_duplicate options ≡ true
    → has_mount_option options f ≡ false
    → no_duplicate (options ++ (f ∷ [])) ≡ true
unfolding has_mount_option
no_duplicate-snoc [] f p q = refl
no_duplicate-snoc (x ∷ options) f p q =
    ground (arith, no_duplicate-snoc options f, has_mount_option-snoc options f x)

-- If the options have no duplicate, then those that the flags are added to have none, and an option
-- is one of them exactly if it was one before or is one of the flags.
pub add_flags_lem :
    (options flags : List String)
    → no_duplicate options ≡ true
    → (no_duplicate (add_flags options flags) ≡ true)
      × ((o : String)
          → has_mount_option (add_flags options flags) o
            ≡ (has_mount_option options o || has_mount_option flags o))
unfolding add_flags has_mount_option
add_flags_lem options [] p = (p, λ o. ground arith)
add_flags_lem options (f ∷ flags) p = elim (Bool-cases (has_mount_option options f)) [
  | inl old ↦
      rw old (let rest = add_flags_lem options flags p in (rest.0, λ o. ground (arith, rest.1 o)))
  | inr fresh ↦ rw fresh (
      let rest = add_flags_lem (options ++ (f ∷ [])) flags (no_duplicate-snoc options f p fresh) in
      (rest.0, λ o. ground (arith, rest.1 o, has_mount_option-snoc options f o)))
]
