-- ===== src/Base/Slices.antt =====
-- Go slices as lists: `copy`, and a sub-slice by its two ends.
use Prim.Native.Nat.{ℕ, zero, suc, ◌+◌, ◌-◌, ◌≤◌}
use mathlib.Core.Path.{◌≡◌, refl, sym, ap, ◌∙◌}
use mathlib.Core.List.{List, [], ◌∷◌, ◌++◌}
use native.Mathlib.Omega.{arith}
use libatbus_go.Base.Lists.{
  length, take, drop, take-append_left, length-drop, length-take, drop-drop, take-nil,
}

module _ {ℓ} {A : Type ℓ} where
  -- `copy(dst, src)`: the first `min (len dst) (len src)` elements of `dst` are overwritten.
  abbrev pub overwrite : List A → List A → List A
  overwrite dst [] = dst
  overwrite [] (s ∷ src) = []
  overwrite (d ∷ dst) (s ∷ src) = s ∷ overwrite dst src

  -- `copy(dst[off:], src)`
  abbrev pub copy_at : ℕ → List A → List A → List A
  copy_at zero dst src = overwrite dst src
  copy_at (suc off) [] src = []
  copy_at (suc off) (d ∷ dst) src = d ∷ copy_at off dst src

  -- `xs[lo:hi]`
  abbrev pub slice : ℕ → ℕ → List A → List A
  slice lo hi xs = take (hi - lo) (drop lo xs)

  pub length-overwrite : (dst src : List A) → length (overwrite dst src) ≡ length dst
  length-overwrite dst [] = refl
  length-overwrite [] (s ∷ src) = refl
  length-overwrite (d ∷ dst) (s ∷ src) = ap suc (length-overwrite dst src)

  pub length-copy_at : (off : ℕ) (dst src : List A) → length (copy_at off dst src) ≡ length dst
  length-copy_at zero dst src = length-overwrite dst src
  length-copy_at (suc off) [] src = refl
  length-copy_at (suc off) (d ∷ dst) src = ap suc (length-copy_at off dst src)

  pub overwrite-fits :
      (dst src : List A)
      → length src ≤ length dst
      → overwrite dst src ≡ src ++ drop (length src) dst
  overwrite-fits dst [] h = refl
  overwrite-fits [] (s ∷ src) h = absurd (omega arith)
  overwrite-fits (d ∷ dst) (s ∷ src) h = ap (◌∷◌ s) (overwrite-fits dst src (omega arith))

  pub copy_at-append :
      (front dst src : List A)
      → copy_at (length front) (front ++ dst) src ≡ front ++ overwrite dst src
  copy_at-append [] dst src = refl
  copy_at-append (d ∷ front) dst src = ap (◌∷◌ d) (copy_at-append front dst src)

module _ {ℓ} {A : Type ℓ} where
  pub take-overwrite :
      (k : ℕ) (dst src : List A)
      → k ≡ length src
      → k ≤ length dst
      → take k (overwrite dst src) ≡ src
  take-overwrite k dst src e h =
      rw (overwrite-fits dst src (omega arith)) (take-append_left k src (drop (length src) dst) e)

  pub take-copy_at :
      (k n : ℕ) (xs src : List A)
      → n ≡ length src
      → k + n ≤ length xs
      → take (k + n) (copy_at k xs src) ≡ take k xs ++ src
  take-copy_at zero n xs src e h =
      let z : zero + n ≡ n = omega arith in rw z (take-overwrite n xs src e (omega arith))
  take-copy_at (suc k) n [] src e h = absurd (omega arith)
  take-copy_at (suc k) n (x ∷ xs) src e h =
      let s : suc k + n ≡ suc (k + n) = omega arith in
      rw s (ap (◌∷◌ x) (take-copy_at k n xs src e (omega arith)))

  copy_at-nil : (k : ℕ) (src : List A) → copy_at k [] src ≡ []
  copy_at-nil zero [] = refl
  copy_at-nil zero (x ∷ src) = refl
  copy_at-nil (suc k) src = refl

  pub drop-copy_at :
      (m k : ℕ) (xs src : List A) → drop m (copy_at (m + k) xs src) ≡ copy_at k (drop m xs) src
  drop-copy_at zero k xs src = ap (λ i. copy_at i xs src) (omega arith)
  drop-copy_at (suc m) k [] src = rw (copy_at-nil (suc m + k) src, copy_at-nil k src)
  drop-copy_at (suc m) k (x ∷ xs) src =
      let s : suc m + k ≡ suc (m + k) = omega arith in rw s (drop-copy_at m k xs src)

  -- Writing just behind a slice makes it longer by what was written.
  pub slice-copy_at :
      (lo k hi n : ℕ) (xs src : List A)
      → hi ≡ lo + k
      → n ≡ length src
      → hi + n ≤ length xs
      → slice lo (hi + n) (copy_at hi xs src) ≡ take k (drop lo xs) ++ src
  slice-copy_at lo k hi n xs src e en h =
      let d : lo + k + n - lo ≡ k + n = omega arith in
      rw (e, d, drop-copy_at lo k xs src)
        (take-copy_at k n (drop lo xs) src en (omega (arith, length-drop lo xs)))

  pub slice-zero : (k : ℕ) (xs : List A) → slice 0 k xs ≡ take k xs
  slice-zero k xs = ap (λ n. take n xs) (omega arith)

  drop-take : (m k : ℕ) (xs : List A) → drop m (take k xs) ≡ take (k - m) (drop m xs)
  drop-take zero k xs = ap (λ n. take n xs) (omega arith)
  drop-take (suc m) zero xs =
      let e : zero ≡ zero - suc m = omega arith in ap (λ n. take n (drop (suc m) xs)) e
  drop-take (suc m) (suc k) [] = sym (take-nil (suc k - suc m))
  drop-take (suc m) (suc k) (x ∷ xs) =
      drop-take m k xs
      ∙ ap (λ n. take n (drop m xs)) (let e : k - m ≡ suc k - suc m = omega arith in e)

  pub drop-slice : (m lo hi : ℕ) (xs : List A) → drop m (slice lo hi xs) ≡ slice (lo + m) hi xs
  drop-slice m lo hi xs =
      let e : hi - lo - m ≡ hi - (lo + m) = omega arith in
      drop-take m (hi - lo) (drop lo xs) ∙ rw (drop-drop m lo xs, e)

  pub length-slice : (lo hi : ℕ) (xs : List A) → hi ≤ length xs → length (slice lo hi xs) ≡ hi - lo
  length-slice lo hi xs h = omega (arith, length-take (hi - lo) (drop lo xs), length-drop lo xs)
