-- ===== src/Util/VolumeLocks.antt =====
-- pkg/util/idlocker.go, the type VolumeLocks: a set of the volumes with an ongoing operation.
-- The mutex makes each method one atomic step.
pub mod Exclusion
use cloudstack_csi_driver.Prelude.{
  String, Bool, true, false, List, [], ◌∷◌, ◌≡◌, if◌then◌else◌, ◌=?◌, arith, refl,
}

-- The sets of k8s.io/apimachinery, which are not part of the repository: the methods that the
-- locks use, with their documented behaviour.
pub record Sets : Type 1 where
  pub Set : Type 0
  pub new : Set
  pub has : Set → String → Bool
  pub insert : Set → String → Set
  pub delete : Set → String → Set
  pub has-new : (k : String) → has new k ≡ false
  pub has-insert :
      (s : Set) (k j : String) → has (insert s k) j ≡ (if j =? k then true else has s j)
  pub has-delete :
      (s : Set) (k j : String) → has (delete s k) j ≡ (if j =? k then false else has s j)

module _ (L : Sets) where
  abbrev pub new_volume_locks : L.Set
  new_volume_locks = L.new

  unfoldable pub try_acquire : String → L.Set → Bool × L.Set
  try_acquire id locks = if L.has locks id then (false, locks) else (true, L.insert locks id)

  unfoldable pub release : String → L.Set → L.Set
  release id locks = L.delete locks id

  -- A lock that was taken and given back leaves every lock as it was.
  pub release-try_acquire :
      (id j : String) (locks : L.Set)
      → (try_acquire id locks).0 ≡ true
      → L.has (release id (try_acquire id locks).1) j ≡ L.has locks j
  unfolding try_acquire release
  release-try_acquire id j locks h =
      ground (arith, L.has-delete (L.insert locks id) id j, L.has-insert locks id j)
