-- ===== src/Common/Any.antt =====
-- Some element of a list satisfies a predicate.
use mathlib.Core.Logic.{◌↔◌, ◌⊎◌, inl, inr}
use mathlib.Core.Path.{◌≡◌, refl}
use native.Mathlib.Omega.{arith}
use mathlib.Core.List.{List, [], ◌∷◌, ◌++◌}

module _ {A : Type 0} where
  abbrev pub Any : (A → Type 0) → List A → Type 0
  Any P [] = ⊥
  Any P (x ∷ xs) = P x ⊎ Any P xs

  Any-append : (P : A → Type 0) (xs ys : List A) → Any P (xs ++ ys) ↔ (Any P xs ⊎ Any P ys)
  Any-append P [] ys = ground arith
  Any-append P (x ∷ xs) ys = let ih = Any-append P xs ys in ground arith

  -- An append whose parts are described has the sum of their descriptions.
  pub append_iff :
      {Q R : Type 0} (P : A → Type 0) (xs ys : List A)
      → (Any P xs ↔ Q)
      → (Any P ys ↔ R)
      → Any P (xs ++ ys) ↔ (Q ⊎ R)
  append_iff P xs ys q r = let both = Any-append P xs ys in ground arith

  Any-exists : (P : A → Type 0) (xs : List A) → Any P xs → (x : A) × Any (λ y. y ≡ x) xs × P x
  Any-exists P [] a = elim a [ ]
  Any-exists P (x ∷ xs) (inl p) = (x, inl refl, p)
  Any-exists P (x ∷ xs) (inr a) = let (y, i, p) = Any-exists P xs a in (y, inr i, p)

  Any-of : (P : A → Type 0) (xs : List A) (x : A) → Any (λ y. y ≡ x) xs → P x → Any P xs
  Any-of P [] x i p = elim i [ ]
  Any-of P (y ∷ xs) x (inl e) p = inl (rw e p)
  Any-of P (y ∷ xs) x (inr i) p = inr (Any-of P xs x i p)

  pub Any-exists_iff :
      (P : A → Type 0) (xs : List A) → Any P xs ↔ ((x : A) × Any (λ y. y ≡ x) xs × P x)
  Any-exists_iff P xs = (Any-exists P xs, λ (x, i, p). Any-of P xs x i p)
