-- ===== src/Driver/Controller/Snapshots/Pages.antt =====
-- `ListSnapshots` hands out its list in pages: following the tokens gives every snapshot once.
use mathlib.Core.List.{map-append}
use cloudstack_csi_driver.Prelude.{
  ℕ, zero, suc, ◌+◌, ◌-◌, ◌^◌, ◌≤◌, ◌<◌, String, Option, none, some, List, [], ◌∷◌, ◌++◌, map, ◌≡◌,
  ◌∙◌, refl, sym, ap, arith, length, take, drop, ltb, if◌then◌else◌, Bool-cases, inl, inr,
  take-append-drop, length-drop, take_all, ◌=?◌,
}
use cloudstack_csi_driver.Prelude.Int.{pos}
use cloudstack_csi_driver.Prelude.Strconv.{itoa, atoi-itoa, itoa-ne-empty}
use cloudstack_csi_driver.Prelude.Prog.{ok, err}
use cloudstack_csi_driver.Util.VolumeLocks.{Sets}
use cloudstack_csi_driver.Cloud.{Connector, Snapshot}
use cloudstack_csi_driver.Driver.Controller.{Server}
use cloudstack_csi_driver.Driver.Controller.Snapshots.{
  Times, SnapshotEntry, ListSnapshotsRequest, page, page_start, page_end, entry_of, list_snapshots,
}

-- A client that asks for pages of `m` entries, first with no token and then with the token that it
-- got, until it gets none. `none` means that a call failed, or that the fuel ran out.
module _ (L : Sets) (C : Connector) (T : Times) (volume_id snapshot_id : String) (m : ℕ) where
  abbrev request : String → ListSnapshotsRequest
  request token = record {
    max_entries = pos m;
    starting_token = token;
    source_volume_id = volume_id;
    snapshot_id = snapshot_id;
  }

  pub all_pages : ℕ → String → Server L C → Option (List (SnapshotEntry T))
  all_pages zero token s = none
  all_pages (suc fuel) token s = elim (list_snapshots L C T (request token) s) [
    | err e s' ↦ none
    | ok resp s' ↦
        if resp.next_token =? ""
        then some resp.entries
        else elim (all_pages fuel resp.next_token s') [
          | none ↦ none
          | some rest ↦ some (resp.entries ++ rest)
        ]
  ]

drop_nil {ℓ} : {A : Type ℓ} (i : ℕ) → drop {A = A} i [] ≡ []
drop_nil zero = refl
drop_nil (suc i) = refl

drop-drop {ℓ} : {A : Type ℓ} (i j : ℕ) (xs : List A) → drop i (drop j xs) ≡ drop (j + i) xs
drop-drop i zero xs = ap (λ k. drop k xs) {x = i} {y = 0 + i} (omega arith)
drop-drop i (suc j) [] = drop_nil i ∙ sym (drop_nil (suc j + i))
drop-drop i (suc j) (x ∷ xs) =
    drop-drop i j xs ∙ ap (λ k. drop k (x ∷ xs)) {x = suc (j + i)} {y = suc j + i} (omega arith)

page_end_lem :
    (m k n : ℕ)
    → 1 ≤ m
    → m < 2 ^ 31
    → k < 2 ^ 62
    → page_end (pos m) k n ≡ (if ltb (k + m) n then k + m else n)
unfolding page_end
page_end_lem m k n p q r = ground arith

page_start_first : (n : ℕ) → page_start "" n ≡ some 0
unfolding page_start
page_start_first n = ground arith

page_start_next : (k n : ℕ) → k ≤ n → n < 2 ^ 62 → page_start (itoa k) n ≡ some k
unfolding page_start
page_start_next k n h small =
    ground (arith, atoi-itoa k (omega arith), itoa-ne-empty k (omega arith))

page_split {ℓ} :
    {A : Type ℓ} (k stop : ℕ) (xs : List A)
    → k ≤ stop
    → take (stop - k) (drop k xs) ++ drop stop xs ≡ drop k xs
page_split k stop xs h =
    ap (λ l. take (stop - k) (drop k xs) ++ l)
      (ap (λ i. drop i xs) {x = stop} {y = k + (stop - k)} (omega arith)
        ∙ sym (drop-drop (stop - k) k xs))
    ∙ take-append-drop (stop - k) (drop k xs)

module _ (L : Sets) (C : Connector) (T : Times) (volume_id snapshot_id : String) (m : ℕ)
    (snaps : List Snapshot) (I : C.State → Type 0)
    (stable : (c : C.State)
      → I c
      → (c' : C.State) × (C.list_snapshots volume_id snapshot_id c ≡ ok snaps c') × I c')
    (pos_m : 1 ≤ m) (small_m : m < 2 ^ 31) (small : length snaps < 2 ^ 62) where
  one_page :
      (token : String) (k : ℕ) (s : Server L C)
      → page_start token (length snaps) ≡ some k
      → I s.cloud
      → (s' : Server L C) × (list_snapshots L C T (request L C T volume_id snapshot_id m token) s
          ≡ ok (page T snaps k (page_end (pos m) k (length snaps))) s')
        × I s'.cloud
  unfolding list_snapshots
  one_page token k s e i =
      let (c', listed, i') = stable s.cloud i in (record s { cloud = c' }, ground arith, i')

  pages_from :
      (fuel : ℕ) (token : String) (k : ℕ) (s : Server L C)
      → page_start token (length snaps) ≡ some k
      → k ≤ length snaps
      → length snaps < fuel + k
      → I s.cloud
      → all_pages L C T volume_id snapshot_id m fuel token s
        ≡ some (map (entry_of T) (drop k snaps))
  unfolding all_pages
  pages_from zero token k s e b f i = absurd (omega arith)
  pages_from (suc fuel) token k s e b f i =
      let n = length snaps in
      let (s', listed, i') = one_page token k s e i in
      let stop = page_end_lem m k n pos_m small_m (omega arith) in
      elim (Bool-cases (ltb (k + m) n)) [
        | inl more ↦
            let rest =
              pages_from fuel (itoa (k + m)) (k + m) s'
                (page_start_next (k + m) n (ground arith) small) (ground arith) (ground arith) i' in
            let joined = ap (map (entry_of T)) (page_split k (k + m) snaps (omega arith)) in
            ground (
              arith,
              rest,
              stop,
              listed,
              itoa-ne-empty (k + m) (ground arith),
              joined,
              map-append (entry_of T) (take (k + m - k) (drop k snaps)) (drop (k + m) snaps),
            )
        | inr last ↦
            let whole = take_all (n - k) (drop k snaps) (omega (arith, length-drop k snaps)) in
            ground (arith, stop, listed, whole)
      ]

  -- If the connector keeps answering the same list, of fewer than 2^62 snapshots, then a client that
  -- asks for pages of 1 to 2^31 - 1 entries and follows the tokens gets an entry for each snapshot
  -- of the list, once and in its order, in at most one call more than the list has snapshots.
  pub all_pages_lem :
      (s : Server L C)
      → I s.cloud
      → all_pages L C T volume_id snapshot_id m (suc (length snaps)) "" s
        ≡ some (map (entry_of T) snaps)
  all_pages_lem s i =
      pages_from (suc (length snaps)) "" 0 s (page_start_first (length snaps)) (omega arith)
        (omega arith) i
