-- ===== src/Syncer/Names/Laws.antt =====
-- The names that storage classes get.
use cloudstack_csi_driver.Prelude.{
  ℕ, ◌≤◌, Bool, true, false, ◌||◌, Option, some, List, [], ◌∷◌, ◌≡◌, ◌==◌, arith, length, All, map,
  take, refl, zero, suc, Bool-cases, Option-cases, inl, inr, length-take, subst,
}
use cloudstack_csi_driver.Syncer.Names.{
  is_lower, is_digit, is_mark, is_other, is_space, lower, replace_runs, trim, trim_left, trim_right,
  put, cleaned, create_storage_class_name, unless_empty,
}

-- Lower-case letters, digits, "." and "-".
abbrev pub IsNameCode : ℕ → Type 0
IsNameCode c = (is_lower c || is_digit c || is_mark c) ≡ true

abbrev pub first_is : (ℕ → Bool) → List ℕ → Bool
first_is p [] = false
first_is p (c ∷ cs) = p c

abbrev pub last_is : (ℕ → Bool) → List ℕ → Bool
last_is p [] = false
last_is p (c ∷ []) = p c
last_is p (c ∷ d ∷ cs) = last_is p (d ∷ cs)

pub record IsName (name : List ℕ) : Type 0 where
  pub codes : All IsNameCode name
  pub not_empty : 1 ≤ length name
  pub bounded : length name ≤ 253
  pub starts : first_is is_mark name ≡ false
  pub ends : last_is is_mark name ≡ false

-- Between the two replacements: name codes, or a space, before and after lower case.
abbrev IsWord : ℕ → Type 0
IsWord c = (is_lower c || is_digit c || (c == b'.') || (c == 32)) ≡ true

lowered-IsWord :
    (inside : Bool) (cs : List ℕ) → All IsWord (map lower (replace_runs is_other 32 inside cs))
lowered-IsWord inside [] = tt
lowered-IsWord inside (c ∷ cs) = ground (arith, lowered-IsWord true cs, lowered-IsWord false cs)

All-trim_left : (P : ℕ → Type 0) (p : ℕ → Bool) (cs : List ℕ) → All P cs → All P (trim_left p cs)
All-trim_left P p [] h = tt
All-trim_left P p (c ∷ cs) h = elim (Bool-cases (p c)) [
  | inl e ↦ rw e (All-trim_left P p cs h.1)
  | inr e ↦ rw e h
]

All-put :
    (P : ℕ → Type 0) (p : ℕ → Bool) (c : ℕ) (cs : List ℕ) → P c → All P cs → All P (put p c cs)
All-put P p c [] h hs = elim (Bool-cases (p c)) [ inl e ↦ rw e tt | inr e ↦ rw e (h, tt) ]
All-put P p c (d ∷ ds) h hs = (h, hs)

All-trim_right : (P : ℕ → Type 0) (p : ℕ → Bool) (cs : List ℕ) → All P cs → All P (trim_right p cs)
All-trim_right P p [] h = tt
All-trim_right P p (c ∷ cs) h = All-put P p c (trim_right p cs) h.0 (All-trim_right P p cs h.1)

All-take : (P : ℕ → Type 0) (n : ℕ) (cs : List ℕ) → All P cs → All P (take n cs)
All-take P zero cs h = tt
All-take P (suc n) [] h = tt
All-take P (suc n) (c ∷ cs) h = (h.0, All-take P n cs h.1)

dashed-IsNameCode :
    (inside : Bool) (cs : List ℕ)
    → All IsWord cs
    → All IsNameCode (replace_runs is_space b'-' inside cs)
dashed-IsNameCode inside [] h = tt
dashed-IsNameCode inside (c ∷ cs) h =
    ground (arith, dashed-IsNameCode true cs h.1, dashed-IsNameCode false cs h.1)

length-trim_left : (p : ℕ → Bool) (cs : List ℕ) → length (trim_left p cs) ≤ length cs
length-trim_left p [] = omega arith
length-trim_left p (c ∷ cs) = ground (arith, length-trim_left p cs)

length-put : (p : ℕ → Bool) (c : ℕ) (cs : List ℕ) → length (put p c cs) ≤ suc (length cs)
length-put p c [] = ground arith
length-put p c (d ∷ ds) = omega arith

length-trim_right : (p : ℕ → Bool) (cs : List ℕ) → length (trim_right p cs) ≤ length cs
length-trim_right p [] = omega arith
length-trim_right p (c ∷ cs) =
    omega (arith, length-trim_right p cs, length-put p c (trim_right p cs))

first-trim_left : (p : ℕ → Bool) (cs : List ℕ) → first_is p (trim_left p cs) ≡ false
first-trim_left p [] = refl
first-trim_left p (c ∷ cs) = ground (arith, first-trim_left p cs)

first-put : (p : ℕ → Bool) (c : ℕ) (cs : List ℕ) → p c ≡ false → first_is p (put p c cs) ≡ false
first-put p c [] h = ground arith
first-put p c (d ∷ ds) h = h

first-trim_right :
    (p : ℕ → Bool) (cs : List ℕ) → first_is p cs ≡ false → first_is p (trim_right p cs) ≡ false
first-trim_right p [] h = refl
first-trim_right p (c ∷ cs) h = first-put p c (trim_right p cs) h

last-put :
    (p : ℕ → Bool) (c : ℕ) (cs : List ℕ) → last_is p cs ≡ false → last_is p (put p c cs) ≡ false
last-put p c [] h = ground arith
last-put p c (d ∷ ds) h = h

last-trim_right : (p : ℕ → Bool) (cs : List ℕ) → last_is p (trim_right p cs) ≡ false
last-trim_right p [] = refl
last-trim_right p (c ∷ cs) = last-put p c (trim_right p cs) (last-trim_right p cs)

cleaned-codes : (cs : List ℕ) → All IsNameCode (cleaned cs)
cleaned-codes cs =
    let lowered = map lower (replace_runs is_other 32 false cs) in
    let words = trim is_space lowered in
    let words_are : All IsWord words =
      All-trim_right IsWord is_space (trim_left is_space lowered)
        (All-trim_left IsWord is_space lowered (lowered-IsWord false cs)) in
    let cut = take 253 (replace_runs is_space b'-' false words) in
    let cut_are : All IsNameCode cut =
      All-take IsNameCode 253 (replace_runs is_space b'-' false words)
        (dashed-IsNameCode false words words_are) in
    All-trim_right IsNameCode is_mark (trim_left is_mark cut)
      (All-trim_left IsNameCode is_mark cut cut_are)

length-cleaned : (cs : List ℕ) → length (cleaned cs) ≤ 253
length-cleaned cs =
    let dashed =
      replace_runs is_space b'-' false
        (trim is_space (map lower (replace_runs is_other 32 false cs))) in
    omega (
      arith,
      length-trim_right is_mark (trim_left is_mark (take 253 dashed)),
      length-trim_left is_mark (take 253 dashed),
      length-take 253 dashed,
    )

marks-cleaned :
    (cs : List ℕ) → (first_is is_mark (cleaned cs) ≡ false) × (last_is is_mark (cleaned cs) ≡ false)
marks-cleaned cs =
    let dashed =
      replace_runs is_space b'-' false
        (trim is_space (map lower (replace_runs is_other 32 false cs))) in
    let cut = trim_left is_mark (take 253 dashed) in
    (
      first-trim_right is_mark cut (first-trim_left is_mark (take 253 dashed)),
      last-trim_right is_mark cut,
    )

unless_empty_lem : (cs name : List ℕ) → unless_empty cs ≡ some name → (1 ≤ length cs) × (cs ≡ name)
unless_empty_lem [] name e = ground arith
unless_empty_lem (c ∷ cs) name e = (omega arith, cc)

-- Whatever the removal of accents yields: a name that is made of a text has 1 to 253 code points,
-- which are lower-case letters, digits, "." and "-", and it neither starts nor ends with "." or "-".
pub create_storage_class_name-IsName :
    (normalize : List ℕ → Option (List ℕ)) (text name : List ℕ)
    → create_storage_class_name normalize text ≡ some name
    → IsName name
unfolding create_storage_class_name
create_storage_class_name-IsName normalize text name e = elim (Option-cases (normalize text)) [
  | inl failed ↦ absurd (ground arith)
  | inr (cs, made) ↦
      let (not_empty, same) =
        unless_empty_lem (cleaned cs) name (rw (made, create_storage_class_name) at e) in
      subst IsName same (record {
        codes = cleaned-codes cs;
        not_empty = not_empty;
        bounded = length-cleaned cs;
        starts = (marks-cleaned cs).0;
        ends = (marks-cleaned cs).1;
      })
]
