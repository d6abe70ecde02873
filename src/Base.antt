-- ===== src/Base.antt =====
-- The names that the other modules share: the libraries', passed on, Boolean tests on the native
-- numbers, and lists of addresses with a Boolean membership test.
use Prim.Native.Nat.{compare, Ordering}
pub use Prim.Native.Nat.{ℕ, zero, suc, ◌+◌, ◌-◌, ◌*◌, ◌/◌, ◌%◌, ◌^◌, ◌≤◌, ◌<◌}
pub use mathlib.Core.Path.{◌≡◌, refl, sym, ap, ap₂, subst, ◌∙◌}
pub use mathlib.Core.Logic.{◌≢◌, ◌↔◌, ◌⊎◌, inl, inr}
pub use mathlib.Core.Bool.{Bool, true, false, not, ◌&&◌, ◌||◌}
pub use mathlib.Core.Option.{Option, none, some}
pub use mathlib.Core.List.{List, [], ◌∷◌, ◌++◌, map}
pub use native.Mathlib.Omega.{arith}

abbrev pub ltb : ℕ → ℕ → Bool
ltb a b = elim (compare a b) [ Ordering.lt ↦ true | _ ↦ false ]

abbrev pub leb : ℕ → ℕ → Bool
leb a b = elim (compare a b) [ Ordering.gt ↦ false | _ ↦ true ]

infix 50 ◌==◌
abbrev pub ◌==◌ : ℕ → ℕ → Bool
a == b = elim (compare a b) [ Ordering.eq ↦ true | _ ↦ false ]

infix 1 if◌then◌else◌
abbrev pub if◌then◌else◌ {ℓ} : {A : Type ℓ} → Bool → A → A → A
if true then x else y = x
if false then x else y = y

pub Bool-cases : (b : Bool) → (b ≡ true) ⊎ (b ≡ false)
Bool-cases true = inl refl
Bool-cases false = inr refl

pub eq_of_== : (a b : ℕ) → (a == b) ≡ true → a ≡ b
eq_of_== a b h = ground arith

pub ne_of_== : (a b : ℕ) → (a == b) ≡ false → a ≢ b
ne_of_== a b h = ground arith

module _ {ℓ} {A : Type ℓ} where
  abbrev pub length : List A → ℕ
  length [] = 0
  length (x ∷ xs) = suc (length xs)

  pub length-append : (xs ys : List A) → length (xs ++ ys) ≡ length xs + length ys
  length-append [] ys = omega arith
  length-append (x ∷ xs) ys = omega (arith, length-append xs ys)

-- Does the address `a` stand in the list?
abbrev pub has : ℕ → List ℕ → Bool
has a [] = false
has a (x ∷ xs) = (a == x) || has a xs

abbrev pub Distinct : List ℕ → Type 0
Distinct [] = Unit {0}
Distinct (x ∷ xs) = (has x xs ≡ false) × Distinct xs

abbrev pub Disjoint : List ℕ → List ℕ → Type 0
Disjoint xs ys = (a : ℕ) → has a xs ≡ true → has a ys ≡ false

pub has-append : (a : ℕ) (xs ys : List ℕ) → has a (xs ++ ys) ≡ (has a xs || has a ys)
has-append a [] ys = refl
has-append a (x ∷ xs) ys = ground (arith, has-append a xs ys)

pub Distinct-append_left : (xs ys : List ℕ) → Distinct (xs ++ ys) → Distinct xs
Distinct-append_left [] ys d = tt
Distinct-append_left (x ∷ xs) ys d =
    (ground (arith, has-append x xs ys), Distinct-append_left xs ys d.1)

pub Distinct-append_right : (xs ys : List ℕ) → Distinct (xs ++ ys) → Distinct ys
Distinct-append_right [] ys d = d
Distinct-append_right (x ∷ xs) ys d = Distinct-append_right xs ys d.1

pub Disjoint-of_Distinct : (xs ys : List ℕ) → Distinct (xs ++ ys) → Disjoint xs ys
Disjoint-of_Distinct [] ys d a h = cc
Disjoint-of_Distinct (x ∷ xs) ys d a h =
    ground (arith, has-append x xs ys, Disjoint-of_Distinct xs ys d.1 a)

pub has_middle : (a y : ℕ) (xs ys : List ℕ) → has a (xs ++ y ∷ ys) ≡ ((a == y) || has a (xs ++ ys))
has_middle a y [] ys = refl
has_middle a y (x ∷ xs) ys = ground (arith, has_middle a y xs ys)

pub Distinct-pull : (y : ℕ) (xs ys : List ℕ) → Distinct (xs ++ y ∷ ys) → Distinct (y ∷ xs ++ ys)
Distinct-pull y [] ys d = d
Distinct-pull y (x ∷ xs) ys d =
    let rest = Distinct-pull y xs ys d.1 in
    let apart = has_middle x y xs ys in (ground arith, (ground arith, rest.1))

pub Distinct-push : (y : ℕ) (xs ys : List ℕ) → Distinct (y ∷ xs ++ ys) → Distinct (xs ++ y ∷ ys)
Distinct-push y [] ys d = d
Distinct-push y (x ∷ xs) ys d =
    let apart = has_middle x y xs ys in (ground arith, Distinct-push y xs ys (ground arith, d.1.1))

pub Disjoint-cons :
    (x : ℕ) (xs ys : List ℕ) → Disjoint xs ys → has x xs ≡ false → Disjoint xs (x ∷ ys)
Disjoint-cons x xs ys apart out a h = elim (Bool-cases (a == x)) [
  | inl e ↦ let eq = eq_of_== a x e in let both : has a xs ≡ has x xs = ap (λ b. has b xs) eq in cc
  | inr e ↦ ground (arith, apart a)
]

pub Disjoint-comm : (xs ys : List ℕ) → Disjoint xs ys → Disjoint ys xs
Disjoint-comm xs ys apart a h = elim (Bool-cases (has a xs)) [
  | inl e ↦ let no' = apart a e in cc
  | inr e ↦ e
]

pub ne_of_has : (a x : ℕ) (xs : List ℕ) → has a xs ≡ true → has x xs ≡ false → (a == x) ≡ false
ne_of_has a x xs i out = elim (Bool-cases (a == x)) [
  | inl e ↦ let both : has a xs ≡ has x xs = ap (λ b. has b xs) (eq_of_== a x e) in cc
  | inr e ↦ e
]

abbrev pub option_list {ℓ} : {A : Type ℓ} → Option A → List A
option_list none = []
option_list (some a) = a ∷ []

pub Option-cases {ℓ} : {A : Type ℓ} (o : Option A) → (o ≡ none) ⊎ ((a : A) × (o ≡ some a))
Option-cases none = inl refl
Option-cases (some a) = inr (a, refl)

pub some-inj {ℓ} : {A : Type ℓ} {a b : A} → some a ≡ some b → a ≡ b
some-inj {a = a} h = ap (λ o. elim o [ none ↦ a | some c ↦ c ]) h
