-- ===== src/Util/OperationLock/Sharing.antt =====
-- Several holders of one OperationLock on one volume.
use cloudstack_csi_driver.Prelude.{
  ℕ, zero, suc, ◌+◌, ◌-◌, ◌^◌, ◌≤◌, ◌<◌, String, false, not, List, [], ◌∷◌, ◌≡◌, refl, ◌==◌, arith,
  length, length-append, ◌++◌, ltb, ◌⊎◌, ◌∙◌, ap, sym, subst, inl, inr, true,
}
use cloudstack_csi_driver.Prelude.Int.{ℤ}
use cloudstack_csi_driver.Prelude.Maps.{Map}
use cloudstack_csi_driver.Util.OperationLock.{
  Operation, create_op, delete_op, clone_opt, restore_op, expand_op, other_op, OperationLock,
  new_operation_lock, held, get_delete_lock, try_acquire,
}
use cloudstack_csi_driver.Util.OperationLock.Counters.{
  Counts, no_operation, Represents, admitted, finished, held-Holds, is_ok, is_some, admit, Within,
  try_acquire-admit,
}
use cloudstack_csi_driver.Util.OperationLock.Exclusion.{
  Call, acquires, releases, run, run_counts, step_counts, run-Represents,
}

abbrev pub replicate : {A : Type 0} → ℕ → A → List A
replicate zero a = []
replicate (suc n) a = a ∷ replicate n a

length-replicate : {A : Type 0} (n : ℕ) (a : A) → length (replicate n a) ≡ n
length-replicate zero a = refl
length-replicate (suc n) a = ap suc (length-replicate n a)

-- `n` holders come, then `m` of them finish.
abbrev pub shared : Operation → String → ℕ → ℕ → List Call
shared op id n m = replicate n (acquires op id) ++ replicate m (releases op id)

length-shared : (op : Operation) (id : String) (n m : ℕ) → length (shared op id n m) ≡ n + m
length-shared op id n m = omega (
  arith,
  length-append (replicate n (acquires op id)) (replicate m (releases op id)),
  length-replicate n (acquires op id),
  length-replicate m (releases op id),
)

run_counts-append :
    (id : String) (xs ys : List Call) (c : Counts)
    → run_counts id (xs ++ ys) c ≡ run_counts id ys (run_counts id xs c)
unfolding run_counts
run_counts-append id [] ys c = refl
run_counts-append id (x ∷ xs) ys c = run_counts-append id xs ys (step_counts id x c)

-- The operations that admit several holders, and the two that hold one.
abbrev pub IsCounted : Operation → Type 0
IsCounted create_op = Unit
IsCounted clone_opt = Unit
IsCounted restore_op = Unit
IsCounted delete_op = ⊥
IsCounted expand_op = ⊥
IsCounted (other_op name) = ⊥

abbrev pub IsExclusive : Operation → Type 0
IsExclusive create_op = ⊥
IsExclusive clone_opt = ⊥
IsExclusive restore_op = ⊥
IsExclusive delete_op = Unit
IsExclusive expand_op = Unit
IsExclusive (other_op name) = ⊥

-- The counters with `n` operations of one kind.
abbrev only : Operation → ℕ → Counts
only create_op n = record no_operation { create = n }
only delete_op n = record no_operation { delete = n }
only clone_opt n = record no_operation { clone = n }
only restore_op n = record no_operation { restore = n }
only expand_op n = record no_operation { expand = n }
only (other_op name) n = no_operation

abbrev pub locks_of : Operation → OperationLock → Map ℤ
locks_of create_op l = l.creates
locks_of delete_op l = l.deletes
locks_of clone_opt l = l.clones
locks_of restore_op l = l.restores
locks_of expand_op l = l.expands
locks_of (other_op name) l = []

held-only :
    (op : Operation) (id : String) (n : ℕ) (l : OperationLock)
    → IsCounted op ⊎ IsExclusive op
    → Represents l id (only op n)
    → held (locks_of op l) id ≡ not (n == 0)
held-only create_op id n l h r = held-Holds l.creates id n r.create_holds
held-only delete_op id n l h r = held-Holds l.deletes id n r.delete_holds
held-only clone_opt id n l h r = held-Holds l.clones id n r.clone_holds
held-only restore_op id n l h r = held-Holds l.restores id n r.restore_holds
held-only expand_op id n l h r = held-Holds l.expands id n r.expand_holds
held-only (other_op name) id n l (inl h) r = elim h [ ]
held-only (other_op name) id n l (inr h) r = elim h [ ]

step-admits :
    (op : Operation) (id : String) (k : ℕ)
    → IsCounted op
    → step_counts id (acquires op id) (only op k) ≡ only op (k + 1)
unfolding step_counts admitted
step-admits create_op id k h = ground arith
step-admits clone_opt id k h = ground arith
step-admits restore_op id k h = ground arith
step-admits delete_op id k h = elim h [ ]
step-admits expand_op id k h = elim h [ ]
step-admits (other_op name) id k h = elim h [ ]

step-finishes :
    (op : Operation) (id : String) (k : ℕ)
    → step_counts id (releases op id) (only op k) ≡ only op (k - 1)
unfolding step_counts finished
step-finishes create_op id k = ground arith
step-finishes clone_opt id k = ground arith
step-finishes restore_op id k = ground arith
step-finishes delete_op id k = ground arith
step-finishes expand_op id k = ground arith
step-finishes (other_op name) id k = ground arith

step-keeps_one :
    (op : Operation) (id : String) (k : ℕ)
    → IsExclusive op
    → k ≤ 1
    → step_counts id (acquires op id) (only op k) ≡ only op 1
unfolding step_counts admitted
step-keeps_one create_op id k h b = elim h [ ]
step-keeps_one clone_opt id k h b = elim h [ ]
step-keeps_one restore_op id k h b = elim h [ ]
step-keeps_one delete_op id k h b = ground arith
step-keeps_one expand_op id k h b = ground arith
step-keeps_one (other_op name) id k h b = elim h [ ]

counts-acquires :
    (op : Operation) (id : String) (n k : ℕ)
    → IsCounted op
    → run_counts id (replicate n (acquires op id)) (only op k) ≡ only op (k + n)
unfolding run_counts
counts-acquires op id zero k h = ap (only op) (omega arith)
counts-acquires op id (suc n) k h =
    ap (run_counts id (replicate n (acquires op id))) (step-admits op id k h)
    ∙ counts-acquires op id n (k + 1) h
    ∙ ap (only op) (omega arith)

counts-releases :
    (op : Operation) (id : String) (m k : ℕ)
    → run_counts id (replicate m (releases op id)) (only op k) ≡ only op (k - m)
unfolding run_counts
counts-releases op id zero k = ap (only op) (omega arith)
counts-releases op id (suc m) k =
    ap (run_counts id (replicate m (releases op id))) (step-finishes op id k)
    ∙ counts-releases op id m (k - 1)
    ∙ ap (only op) (omega arith)

counts-acquires_one :
    (op : Operation) (id : String) (n k : ℕ)
    → IsExclusive op
    → k ≤ 1
    → run_counts id (replicate (suc n) (acquires op id)) (only op k) ≡ only op 1
unfolding run_counts
counts-acquires_one op id zero k h b = step-keeps_one op id k h b
counts-acquires_one op id (suc n) k h b =
    ap (run_counts id (replicate (suc n) (acquires op id))) (step-keeps_one op id k h b)
    ∙ counts-acquires_one op id n 1 h (omega arith)

only_zero : (op : Operation) → only op 0 ≡ no_operation
only_zero create_op = refl
only_zero delete_op = refl
only_zero clone_opt = refl
only_zero restore_op = refl
only_zero expand_op = refl
only_zero (other_op name) = refl

held-shared :
    (op : Operation) (id : String) (n m k : ℕ)
    → IsCounted op ⊎ IsExclusive op
    → n + m < 2 ^ 63
    → run_counts id (shared op id n m) (only op 0) ≡ only op k
    → held (locks_of op (run (shared op id n m) new_operation_lock)) id ≡ not (k == 0)
held-shared op id n m k h small e = held-only op id k _ h (
    subst (Represents (run (shared op id n m) new_operation_lock) id)
      (ap (run_counts id (shared op id n m)) (sym (only_zero op)) ∙ e)
      (run-Represents id (shared op id n m) (omega (arith, length-shared op id n m))))

-- A new lock that `n` operations of one kind take on a volume, and that `m` of them release, stays
-- held exactly while fewer have released it than have taken it: for snapshot creation, cloning and
-- restoration, and n + m < 2^63.
pub held_counted :
    (op : Operation) (id : String) (n m : ℕ)
    → IsCounted op
    → n + m < 2 ^ 63
    → held (locks_of op (run (shared op id n m) new_operation_lock)) id ≡ ltb m n
held_counted op id n m h small =
    held-shared op id n m (n - m) (inl h) small (
      run_counts-append id (replicate n (acquires op id)) _ (only op 0)
      ∙ ap (run_counts id (replicate m (releases op id))) (counts-acquires op id n 0 h)
      ∙ counts-releases op id m (0 + n)
      ∙ ap (only op) (omega arith))
    ∙ ground arith

-- One holder, or none, of an operation that is not counted.
acquires-only :
    (op : Operation) (id : String) (k : ℕ)
    → IsExclusive op
    → k < 2 ^ 63
    → (j : ℕ) × (j ≤ 1)
      × Represents (run (replicate k (acquires op id)) new_operation_lock) id (only op j)
unfolding run_counts
acquires-only op id zero h small = (
  0,
  omega arith,
  subst (Represents (run [] new_operation_lock) id) (sym (only_zero op))
      (run-Represents id [] (omega arith)),
)
acquires-only op id (suc k) h small =
    let xs = replicate (suc k) (acquires op id) in
    (
      1,
      omega arith,
      subst (Represents (run xs new_operation_lock) id)
          (ap (run_counts id xs) (sym (only_zero op))
            ∙ counts-acquires_one op id k 0 h (omega arith))
          (run-Represents id xs (omega (arith, length-replicate (suc k) (acquires op id)))),
    )

only-admit : (op : Operation) (j : ℕ) → IsExclusive op → is_some (admit op (only op j)) ≡ true
unfolding admit
only-admit create_op j h = elim h [ ]
only-admit delete_op j h = refl
only-admit clone_opt j h = elim h [ ]
only-admit restore_op j h = elim h [ ]
only-admit expand_op j h = refl
only-admit (other_op name) j h = elim h [ ]

only-Within : (op : Operation) (j : ℕ) → j ≤ 1 → Within 1 (only op j)
only-Within create_op j h = ground arith
only-Within delete_op j h = ground arith
only-Within clone_opt j h = ground arith
only-Within restore_op j h = ground arith
only-Within expand_op j h = ground arith
only-Within (other_op name) j h = ground arith

-- After any number, below 2^63, of deletions have come to a new lock on a volume, another one is
-- admitted, and likewise for expansions; and however many have come, from 1 to 2^63 - 2, the first of
-- them to release the lock leaves the volume free: these two kinds are not counted.
pub held_uncounted :
    (op : Operation) (id : String) (n : ℕ)
    → IsExclusive op
    → n + 2 < 2 ^ 63
    → ((k : ℕ)
        → k < 2 ^ 63
        → is_ok (try_acquire op id (run (replicate k (acquires op id)) new_operation_lock)) ≡ true)
      × (held (locks_of op (run (shared op id (suc n) 1) new_operation_lock)) id ≡ false)
held_uncounted op id n h small = (
  (λ k below.
      let l = run (replicate k (acquires op id)) new_operation_lock in
      let (j, one, r) = acquires-only op id k h below in
      try_acquire-admit l id (only op j) 1 (omega arith) (only-Within op j one) r op
      ∙ only-admit op j h),
  held-shared op id (suc n) 1 0 (inr h) (omega arith) (
        run_counts-append id (replicate (suc n) (acquires op id)) _ (only op 0)
        ∙ ap (run_counts id (replicate 1 (releases op id)))
            (counts-acquires_one op id n 0 h (omega arith))
        ∙ counts-releases op id 1 1
        ∙ ap (only op) (omega arith))
      ∙ ground arith,
)

-- After `n` clone operations took a new lock on a volume, for any n below 2^63, the clone lock is
-- held if n is positive, and the delete lock on that volume is given all the same.
pub delete_despite_clones :
    (id : String) (n : ℕ)
    → n < 2 ^ 63
    → let l = run (shared clone_opt id n 0) new_operation_lock in
      (held l.clones id ≡ ltb 0 n) × (is_ok (get_delete_lock id l) ≡ true)
unfolding get_delete_lock try_acquire
delete_despite_clones id n small =
    let xs = shared clone_opt id n 0 in
    let l = run xs new_operation_lock in
    let r = run-Represents id xs (omega (arith, length-shared clone_opt id n 0)) in
    let e : run_counts id xs no_operation ≡ only clone_opt n =
      run_counts-append id (replicate n (acquires clone_opt id)) _ no_operation
      ∙ ap (run_counts id []) (counts-acquires clone_opt id n 0 tt)
      ∙ counts-releases clone_opt id 0 (0 + n)
      ∙ ap (only clone_opt) (omega arith) in
    let c : Represents l id (only clone_opt n) = subst (Represents l id) e r in
    (
      held_counted clone_opt id n 0 tt (omega arith),
      rw
          (
            held-Holds l.expands id 0 c.expand_holds,
            held-Holds l.restores id 0 c.restore_holds,
            try_acquire,
          )
          refl,
    )
