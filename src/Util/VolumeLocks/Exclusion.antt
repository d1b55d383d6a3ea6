-- ===== src/Util/VolumeLocks/Exclusion.antt =====
-- Concurrent operations on VolumeLocks: the calls of several goroutines in any order.
use cloudstack_csi_driver.Prelude.{
  ℕ, ◌+◌, String, true, false, List, [], ◌∷◌, ◌++◌, ◌≡◌, ◌=?◌, if◌then◌else◌, arith,
}
use cloudstack_csi_driver.Util.VolumeLocks.{Sets, new_volume_locks, try_acquire, release}

-- Which goroutines hold which volume, and the shared set.
pub record System (L : Sets) : Type 0 where
  pub holders : List (ℕ × String)
  pub locks : L.Set

-- How many goroutines hold the volume.
unfoldable pub holding : String → List (ℕ × String) → ℕ
holding id [] = 0
holding id ((p, j) ∷ hs) = (if id =? j then 1 else 0) + holding id hs

holding-remove :
    (id : String) (xs ys : List (ℕ × String)) (p : ℕ) (j : String)
    → holding id (xs ++ (p, j) ∷ ys) ≡ holding id (xs ++ ys) + (if id =? j then 1 else 0)
unfolding holding
holding-remove id [] ys p j = omega arith
holding-remove id ((q, i) ∷ xs) ys p j = omega (arith, holding-remove id xs ys p j)

module _ (L : Sets) where
  unfoldable pub start : System L
  start = record { holders = []; locks = new_volume_locks L }

  -- A goroutine that acquires a volume holds it until it releases it, and releases no other.
  pub data Step (s t : System L) : Type 0 where
    acquires :
        (p : ℕ) (id : String)
        → (try_acquire L id s.locks).0 ≡ true
        → t.holders ≡ (p, id) ∷ s.holders
        → t.locks ≡ (try_acquire L id s.locks).1
        → Step s t
    refused :
        (p : ℕ) (id : String)
        → (try_acquire L id s.locks).0 ≡ false
        → t.holders ≡ s.holders
        → t.locks ≡ (try_acquire L id s.locks).1
        → Step s t
    releases :
        (p : ℕ) (id : String) (xs ys : List (ℕ × String))
        → s.holders ≡ xs ++ (p, id) ∷ ys
        → t.holders ≡ xs ++ ys
        → t.locks ≡ release L id s.locks
        → Step s t

  pub data Reach : System L → Type 0 where
    here : Reach start
    next : {s t : System L} → Reach s → Step s t → Reach t

  abbrev Agrees : System L → Type 0
  Agrees s = (id : String) → holding id s.holders ≡ (if L.has s.locks id then 1 else 0)

  Step-Agrees : {s t : System L} → Step s t → Agrees s → Agrees t
  unfolding holding try_acquire release
  Step-Agrees {s} {t} (acquires p j ok eh el) a id =
      ground (arith, a id, a j, L.has-insert s.locks j id)
  Step-Agrees {s} {t} (refused p j no_lock eh el) a id = ground (arith, a id)
  Step-Agrees {s} {t} (releases p j xs ys es eh el) a id =
      ground (arith, a id, a j, holding-remove id xs ys p j, L.has-delete s.locks j id)

  Reach-Agrees : {s : System L} → Reach s → Agrees s
  unfolding start holding
  Reach-Agrees here id = rw L.has-new
  Reach-Agrees (next r st) id = Step-Agrees st (Reach-Agrees r) id

  -- In every state that the calls can reach, the set has a volume exactly if one goroutine holds
  -- it, and no two goroutines hold one volume.
  pub Reach-holding :
      {s : System L} (id : String)
      → Reach s
      → holding id s.holders ≡ (if L.has s.locks id then 1 else 0)
  Reach-holding id r = Reach-Agrees r id
