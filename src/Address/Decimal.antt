-- ===== src/Address/Decimal.antt =====
-- `strconv.Itoa` writes the digits that `strconv.Atoi` reads.
use libatbus_go.Base.{
  ℕ, zero, suc, ◌+◌, ◌-◌, ◌*◌, ◌/◌, ◌%◌, ◌^◌, ◌≤◌, ◌<◌, ◌≡◌, refl, sym, ap, ◌∙◌, arith, [], ◌∷◌,
  ◌++◌, none, some, inl, inr, Bool-cases, All,
}
use libatbus_go.Base.{length, length-append, ltb, leb, le→leb, ≢→==, if◌then◌else◌}
use libatbus_go.Address.{String, digits_value, digits, itoa, unsigned_value, atoi}
use mathlib.Core.Option.{some-injective}
use native.Mathlib.Nat.{pow-succ'}

abbrev pub IsDigit : ℕ → Type 0
IsDigit x = (48 ≤ x) × (x ≤ 57)

digits_value-snoc :
    (total : ℕ) (xs : String) (d v : ℕ)
    → digits_value total xs ≡ some v
    → All IsDigit xs
    → d ≤ 9
    → digits_value total (xs ++ ((48 + d) ∷ [])) ≡ some (v * 10 + d)
unfolding digits_value
digits_value-snoc total [] d v e h hd =
    let same : total ≡ v = some-injective total v e in
    rw (le→leb 48 (48 + d) (omega arith), le→leb (48 + d) 57 (omega arith))
      (ap (λ t. some t) (omega (arith, same)))
digits_value-snoc total (x ∷ xs) d v e ((low, high), h) hd =
    rw (le→leb 48 x low, le→leb x 57 high)
      (digits_value-snoc (total * 10 + (x - 48)) xs d v
        (sym (rw (le→leb 48 x low, le→leb x 57 high) refl) ∙ e) h hd)

All-append : (xs ys : String) → All IsDigit xs → All IsDigit ys → All IsDigit (xs ++ ys)
All-append [] ys h k = k
All-append (x ∷ xs) ys (hx, h) k = (hx, All-append xs ys h k)

digits-IsDigit : (fuel n : ℕ) → All IsDigit (digits fuel n)
unfolding digits
digits-IsDigit zero n = tt
digits-IsDigit (suc fuel) n = elim (Bool-cases (ltb n 10)) [
  | inl e ↦ rw e (ground arith, tt)
  | inr e ↦ rw e (
      All-append (digits fuel (n / 10)) ((48 + n % 10) ∷ []) (digits-IsDigit fuel (n / 10))
        (omega arith, tt))
]

digits_value-digits : (fuel n : ℕ) → n < 10 ^ fuel → digits_value 0 (digits fuel n) ≡ some n
unfolding digits_value digits
digits_value-digits zero n h = ap (λ t. some t) (omega arith)
digits_value-digits (suc fuel) n h = elim (Bool-cases (ltb n 10)) [
  | inl e ↦
      rw (e, le→leb 48 (48 + n) (omega arith), le→leb (48 + n) 57 (ground arith))
        (ap (λ t. some t) (omega arith))
  | inr e ↦ rw e (
      digits_value-snoc 0 (digits fuel (n / 10)) (n % 10) (n / 10)
        (digits_value-digits fuel (n / 10) (omega (arith, pow-succ' 10 fuel)))
        (digits-IsDigit fuel (n / 10)) (omega arith)
      ∙ ap (λ t. some t) (omega arith))
]

digits-nonempty : (fuel n : ℕ) → 0 < length (digits (suc fuel) n)
unfolding digits
digits-nonempty fuel n = elim (Bool-cases (ltb n 10)) [
  | inl e ↦ rw e (omega arith)
  | inr e ↦ rw e (omega (arith, length-append (digits fuel (n / 10)) ((48 + n % 10) ∷ [])))
]

atoi-unsigned :
    (xs : String) (n : ℕ)
    → All IsDigit xs
    → 0 < length xs
    → digits_value 0 xs ≡ some n
    → n < 2 ^ 63
    → atoi xs ≡ some n
unfolding atoi
atoi-unsigned [] n h some_digits e small = absurd (omega arith)
atoi-unsigned (x ∷ xs) n ((low, high), h) some_digits e small =
    let value : unsigned_value (2 ^ 63 - 1) (x ∷ xs) ≡ some n =
      ap (λ o. elim o [ none ↦ none | some n ↦ if leb n (2 ^ 63 - 1) then some n else none ]) e
      ∙ rw (le→leb n (2 ^ 63 - 1) (omega arith)) refl in
    rw (≢→== x 45 (λ p. omega arith), ≢→== x 43 (λ p. omega arith)) value

pub itoa-IsDigit : (n : ℕ) → All IsDigit (itoa n)
itoa-IsDigit n = digits-IsDigit 20 n

pub atoi-itoa : (n : ℕ) → n < 2 ^ 63 → atoi (itoa n) ≡ some n
atoi-itoa n small =
    atoi-unsigned (itoa n) n (digits-IsDigit 20 n) (digits-nonempty 19 n)
      (digits_value-digits 20 n (omega arith)) small
