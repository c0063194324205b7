-- ===== src/Topology/Map.antt =====
-- Maps from ids as association lists, for impl/atbus_topology.go.
use libatbus_go.Base.{
  ℕ, ◌≡◌, ◌≢◌, refl, sym, ◌∙◌, arith, List, [], ◌∷◌, Option, none, some, Bool, true, false, inl,
  inr, Bool-cases,
}
use libatbus_go.Base.{◌==◌, ==_iff, ==-refl, ≢→==, if◌then◌else◌}
use mathlib.Core.Option.{none-ne-some}

module _ {ℓ} {A : Type ℓ} where
  abbrev pub lookup : ℕ → List (ℕ × A) → Option A
  lookup k [] = none
  lookup k ((i, a) ∷ xs) = if i == k then some a else lookup k xs

  -- `m[k] = a`
  abbrev pub insert : ℕ → A → List (ℕ × A) → List (ℕ × A)
  insert k a [] = (k, a) ∷ []
  insert k a ((i, b) ∷ xs) = if i == k then (k, a) ∷ xs else (i, b) ∷ insert k a xs

  -- `delete(m, k)`
  abbrev pub delete : ℕ → List (ℕ × A) → List (ℕ × A)
  delete k [] = []
  delete k ((i, b) ∷ xs) = if i == k then delete k xs else (i, b) ∷ delete k xs

  -- `len(m) == 0`
  abbrev pub has_none : List (ℕ × A) → Bool
  has_none [] = true
  has_none (x ∷ xs) = false

  pub lookup-insert_self : (k : ℕ) (a : A) (xs : List (ℕ × A)) → lookup k (insert k a xs) ≡ some a
  lookup-insert_self k a [] = rw (==-refl k) refl
  lookup-insert_self k a ((i, b) ∷ xs) = elim (Bool-cases (i == k)) [
    | inl e ↦ rw (e, ==-refl k) refl
    | inr e ↦ rw (e, e) (lookup-insert_self k a xs)
  ]

  pub lookup-insert_other :
      (k j : ℕ) (a : A) (xs : List (ℕ × A)) → k ≢ j → lookup j (insert k a xs) ≡ lookup j xs
  lookup-insert_other k j a [] ne = rw (≢→== k j ne) refl
  lookup-insert_other k j a ((i, b) ∷ xs) ne = elim (Bool-cases (i == k)) [
    | inl e ↦ let same = (==_iff i k).0 e in rw (e, ≢→== k j ne, same, ≢→== k j ne) refl
    | inr e ↦ rw (e, lookup-insert_other k j a xs ne) refl
  ]

  delete_self : (k j : ℕ) (a : A) (xs : List (ℕ × A)) → k ≡ j → lookup j (delete k xs) ≢ some a
  delete_self k j a [] e h = absurd (none-ne-some a h)
  delete_self k j a ((i, b) ∷ xs) e h = elim (Bool-cases (i == k)) [
    | inl f ↦ delete_self k j a xs e (rw f at h)
    | inr f ↦
        let other : i ≢ j = λ g. grind (arith, ==_iff, e, f, g) in
        delete_self k j a xs e (rw (f, ≢→== i j other) at h)
  ]

  pub lookup-delete :
      (k j : ℕ) (a : A) (xs : List (ℕ × A)) → lookup j (delete k xs) ≡ some a → lookup j xs ≡ some a
  lookup-delete k j a [] h = h
  lookup-delete k j a ((i, b) ∷ xs) h = elim (Bool-cases (i == k)) [
    | inl e ↦
        let same = (==_iff i k).0 e in
        elim (Bool-cases (i == j)) [
          | inl f ↦
              let gone : lookup j (delete k xs) ≡ some a = rw e at h in
              absurd (delete_self k j a xs (sym same ∙ (==_iff i j).0 f) gone)
          | inr f ↦ rw f (lookup-delete k j a xs (rw e at h))
        ]
    | inr e ↦ elim (Bool-cases (i == j)) [
      | inl f ↦ rw f (rw (e, f) at h)
      | inr f ↦ rw f (lookup-delete k j a xs (rw (e, f) at h))
    ]
  ]
