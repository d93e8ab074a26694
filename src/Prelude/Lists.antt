-- ===== src/Prelude/Lists.antt =====
-- Lists measured by native numbers, and predicates on their elements by recursion.
use Prim.Native.Nat.{ℕ, suc, ◌+◌}
use mathlib.Core.Path.{◌≡◌, sym}
use mathlib.Core.Logic.{◌≢◌}
use mathlib.Core.List.{List, [], ◌∷◌, ◌++◌}
use native.Mathlib.Omega.{arith}

module _ {ℓ} {A : Type ℓ} where
  abbrev pub length : List A → ℕ
  length [] = 0
  length (x ∷ xs) = suc (length xs)

  pub length-append : (xs ys : List A) → length (xs ++ ys) ≡ length xs + length ys
  length-append [] ys = omega arith
  length-append (x ∷ xs) ys = omega (arith, length-append xs ys)

abbrev pub All {ℓ κ} : {A : Type ℓ} → (A → Type κ) → List A → Type κ
All P [] = Unit
All P (x ∷ xs) = P x × All P xs

pub All-append {ℓ κ} :
    {A : Type ℓ} (P : A → Type κ) (xs ys : List A) → All P xs → All P ys → All P (xs ++ ys)
All-append P [] ys hx hy = hy
All-append P (x ∷ xs) ys hx hy = (hx.0, All-append P xs ys hx.1 hy)

pub All-append_left {ℓ κ} :
    {A : Type ℓ} (P : A → Type κ) (xs ys : List A) → All P (xs ++ ys) → All P xs
All-append_left P [] ys h = tt
All-append_left P (x ∷ xs) ys h = (h.0, All-append_left P xs ys h.1)

pub All-append_right {ℓ κ} :
    {A : Type ℓ} (P : A → Type κ) (xs ys : List A) → All P (xs ++ ys) → All P ys
All-append_right P [] ys h = h
All-append_right P (x ∷ xs) ys h = All-append_right P xs ys h.1

pub All-map {ℓ κ κ'} :
    {A : Type ℓ} (P : A → Type κ) (Q : A → Type κ') (xs : List A)
    → ((x : A) → P x → Q x)
    → All P xs
    → All Q xs
All-map P Q [] f h = tt
All-map P Q (x ∷ xs) f h = (f x h.0, All-map P Q xs f h.1)

-- No element stands twice.
abbrev pub Distinct {ℓ} : {A : Type ℓ} → List A → Type ℓ
Distinct [] = Unit
Distinct (x ∷ xs) = All (λ y. y ≢ x) xs × Distinct xs

pub Distinct-append_left {ℓ} : {A : Type ℓ} (xs ys : List A) → Distinct (xs ++ ys) → Distinct xs
Distinct-append_left [] ys d = tt
Distinct-append_left (x ∷ xs) ys d =
    (All-append_left (λ y. y ≢ x) xs ys d.0, Distinct-append_left xs ys d.1)

pub Distinct-append_right {ℓ} : {A : Type ℓ} (xs ys : List A) → Distinct (xs ++ ys) → Distinct ys
Distinct-append_right [] ys d = d
Distinct-append_right (x ∷ xs) ys d = Distinct-append_right xs ys d.1

pub Distinct-apart {ℓ} :
    {A : Type ℓ} (xs ys : List A) → Distinct (xs ++ ys) → All (λ x. All (λ y. y ≢ x) ys) xs
Distinct-apart [] ys d = tt
Distinct-apart (x ∷ xs) ys d = (All-append_right (λ y. y ≢ x) xs ys d.0, Distinct-apart xs ys d.1)

pub All-zip {ℓ κ κ'} :
    {A : Type ℓ} (P : A → Type κ) (Q : A → Type κ') (xs : List A)
    → All P xs
    → All Q xs
    → All (λ x. P x × Q x) xs
All-zip P Q [] h k = tt
All-zip P Q (x ∷ xs) h k = ((h.0, k.0), All-zip P Q xs h.1 k.1)

All-cons_each {ℓ} :
    {A : Type ℓ} (x : A) (xs ys : List A)
    → All (λ y. y ≢ x) ys
    → All (λ y. All (λ x'. x' ≢ y) xs) ys
    → All (λ y. All (λ x'. x' ≢ y) (x ∷ xs)) ys
All-cons_each x xs [] h k = tt
All-cons_each x xs (y ∷ ys) h k = ((λ e. h.0 (sym e), k.0), All-cons_each x xs ys h.1 k.1)

All-nil_each {ℓ} : {A : Type ℓ} (ys : List A) → All (λ y. All (λ x'. x' ≢ y) []) ys
All-nil_each [] = tt
All-nil_each (y ∷ ys) = (tt, All-nil_each ys)

pub Distinct-apart_rev {ℓ} :
    {A : Type ℓ} (xs ys : List A) → Distinct (xs ++ ys) → All (λ y. All (λ x. x ≢ y) xs) ys
Distinct-apart_rev [] ys d = All-nil_each ys
Distinct-apart_rev (x ∷ xs) ys d =
    All-cons_each x xs ys (All-append_right (λ y. y ≢ x) xs ys d.0) (Distinct-apart_rev xs ys d.1)
