-- ===== src/Prelude/Strconv.antt =====
-- Go's strconv.Itoa on numbers that are not negative, strconv.Atoi, and the text of code points.
use Prim.Native.Nat.{ℕ, zero, suc, ◌+◌, ◌-◌, ◌*◌, ◌/◌, ◌%◌, ◌^◌, ◌<◌}
use Prim.Native.String.{String, ◌++◌ as ◌<>◌}
use mathlib.Core.Path.{◌≡◌, refl, ap, ◌∙◌, sym}
use mathlib.Core.Logic.{◌≢◌, inl, inr}
use mathlib.Core.Bool.{◌&&◌}
use mathlib.Core.Option.{Option, none, some}
use mathlib.Core.List.{List, [], ◌∷◌, ◌++◌, append_assoc, append-nil}
use native.Mathlib.Omega.{arith}
use Prim.Native.Char.{code, Char, char, nul, IsScalar}
use text.Mathlib.TextLemmas.{nil-append, cons-append}
use cloudstack_csi_driver.Prelude.Tests.{ltb, leb, ◌==◌, if◌then◌else◌, Bool-cases, ltb→lt}
use cloudstack_csi_driver.Prelude.Text.{codes}
use cloudstack_csi_driver.Prelude.Lists.{get_elem?}
use cloudstack_csi_driver.Prelude.Int.{ℤ, pos, sub_ℕ}

unfoldable digit : ℕ → String
digit d =
    elim (get_elem? {A = String} ("0" ∷ "1" ∷ "2" ∷ "3" ∷ "4" ∷ "5" ∷ "6" ∷ "7" ∷ "8" ∷ "9" ∷ [])
      d) [ none ↦ "" | some s ↦ s ]

-- The fuel is above the number, which falls with each digit.
unfoldable itoa_go : ℕ → ℕ → String
itoa_go zero n = ""
itoa_go (suc f) n =
    let rest = itoa_go f (n / 10) in if ltb n 10 then digit n else rest <> digit (n % 10)

unfoldable pub itoa : ℕ → String
unfolding itoa_go digit
itoa n = itoa_go (suc n) n

abbrev parse_digits : ℕ → List ℕ → Option ℕ
parse_digits acc [] = some acc
parse_digits acc (c ∷ cs) =
    if leb b'0' c && leb c b'9' then parse_digits (acc * 10 + (c - b'0')) cs else none

-- At least one digit.
abbrev parse_unsigned : List ℕ → Option ℕ
parse_unsigned [] = none
parse_unsigned (c ∷ cs) = parse_digits 0 (c ∷ cs)

abbrev positive : Option ℕ → Option ℤ
positive none = none
positive (some n) = if ltb n (2 ^ 63) then some (pos n) else none

abbrev negative : Option ℕ → Option ℤ
negative none = none
negative (some n) = if leb n (2 ^ 63) then some (sub_ℕ 0 n) else none

-- `strconv.ParseInt(s, 10, 64)`; `none` is an error.
abbrev pub parse_int : List ℕ → Option ℤ
parse_int [] = none
parse_int (c ∷ cs) =
    if c == b'+'
    then positive (parse_unsigned cs)
    else if c == b'-'
    then negative (parse_unsigned cs)
    else positive (parse_digits 0 (c ∷ cs))

-- `none` is an error: no digit, another character, or a value outside int64.
unfoldable pub atoi : String → Option ℤ
atoi s = parse_int (codes s)

pub codes-append : (s t : String) → codes (s <> t) ≡ codes s ++ codes t
codes-append String.[] t = ap codes (nil-append t)
codes-append (String.◌∷◌ c s) t =
    ap codes (cons-append c s t) ∙ ap (λ l. code c ∷ l) (codes-append s t)

codes-digit : (n : ℕ) → n < 10 → codes (digit n) ≡ (b'0' + n) ∷ []
unfolding digit
codes-digit zero h = refl
codes-digit (suc zero) h = refl
codes-digit (suc (suc zero)) h = refl
codes-digit (suc (suc (suc zero))) h = refl
codes-digit (suc (suc (suc (suc zero)))) h = refl
codes-digit (suc (suc (suc (suc (suc zero))))) h = refl
codes-digit (suc (suc (suc (suc (suc (suc zero)))))) h = refl
codes-digit (suc (suc (suc (suc (suc (suc (suc zero))))))) h = refl
codes-digit (suc (suc (suc (suc (suc (suc (suc (suc zero)))))))) h = refl
codes-digit (suc (suc (suc (suc (suc (suc (suc (suc (suc zero))))))))) h = refl
codes-digit (suc (suc (suc (suc (suc (suc (suc (suc (suc (suc n)))))))))) h = absurd (omega arith)

-- What parsing the digits of `n` does, whatever follows them.
parse-itoa_go :
    (f n : ℕ) (rest : List ℕ)
    → n < f
    → parse_digits 0 (codes (itoa_go f n) ++ rest) ≡ parse_digits n rest
unfolding itoa_go
parse-itoa_go zero n rest h = elim h [ ]
parse-itoa_go (suc f) n rest h = elim (Bool-cases (ltb n 10)) [
  | inl small ↦ rw (small, codes-digit n (ltb→lt n 10 small)) (ground arith)
  | inr large ↦
      rw
        (
          large,
          codes-append (itoa_go f (n / 10)) (digit (n % 10)),
          append_assoc (codes (itoa_go f (n / 10))) (codes (digit (n % 10))) rest,
          parse-itoa_go f (n / 10) (codes (digit (n % 10)) ++ rest) (ground arith),
          codes-digit (n % 10) (omega arith),
        )
        (ground arith)
]

append_ne : (xs : List ℕ) (y : ℕ) → (xs ++ (y ∷ [])) ≢ []
append_ne [] y e = cc
append_ne (x ∷ xs) y e = cc

not_empty : (f n : ℕ) → codes (itoa_go (suc f) n) ≢ []
unfolding itoa_go
not_empty f n e = elim (Bool-cases (ltb n 10)) [
  | inl small ↦ ground (arith, codes-digit n)
  | inr large ↦ append_ne (codes (itoa_go f (n / 10))) (b'0' + n % 10) (
      ap (λ l. codes (itoa_go f (n / 10)) ++ l) (sym (codes-digit (n % 10) (omega arith)))
      ∙ sym (codes-append (itoa_go f (n / 10)) (digit (n % 10)))
      ∙ (rw large at e))
]

-- Parsing digits alone.
parse_int_of_digits :
    (cs : List ℕ) (n : ℕ)
    → cs ≢ []
    → parse_digits 0 cs ≡ some n
    → n < 2 ^ 63
    → parse_int cs ≡ some (pos n)
parse_int_of_digits [] n ne e h = absurd (ne refl)
parse_int_of_digits (c ∷ cs) n ne e h = ground arith

digits_of : (n : ℕ) → parse_digits 0 (codes (itoa n) ++ []) ≡ some n
unfolding itoa
digits_of n = parse-itoa_go (suc n) n [] (omega arith)

pub itoa_inj : (m n : ℕ) → itoa m ≡ itoa n → m ≡ n
itoa_inj m n e = cc (digits_of m, digits_of n)

pub atoi-itoa : (n : ℕ) → n < 2 ^ 63 → atoi (itoa n) ≡ some (pos n)
unfolding atoi itoa
atoi-itoa n h =
    parse_int_of_digits (codes (itoa_go (suc n) n)) n (not_empty n n)
      (ap (parse_digits 0) (sym (append-nil (codes (itoa_go (suc n) n))))
        ∙ parse-itoa_go (suc n) n [] (omega arith))
      h

pub itoa-ne-empty : (n : ℕ) → n < 2 ^ 63 → itoa n ≢ ""
unfolding atoi
itoa-ne-empty n h e = cc (atoi-itoa n h)

pub scalar : (n : ℕ) → n < 128 → IsScalar n
scalar n h = ground arith

abbrev char_of : ℕ → Char
char_of n = elim (Bool-cases (ltb n 128)) [
  | inl small ↦ char n (scalar n (ltb→lt n 128 small))
  | inr large ↦ nul
]

-- The text of code points of ASCII.
unfoldable pub text_of : List ℕ → String
text_of [] = String.[]
text_of (c ∷ cs) = String.◌∷◌ (char_of c) (text_of cs)
