-- ===== src/Base/Unique.antt =====
-- Lists without repetition, for the unique columns of a table.
use attendance_managment.Base.Tests.{Equality, ◌==◌, nat_eq, string_eq, ==_iff}
use attendance_managment.Base.Lists.{length, filter, includes, includes-append}
use Prim.Native.Nat.{◌≤◌}
use mathlib.Core.Path.{◌≡◌, refl, ap}
use mathlib.Core.Bool.{Bool, true, false, ◌&&◌}
use mathlib.Core.Logic.{◌↔◌}
use mathlib.Core.List.{List, [], ◌∷◌, ◌++◌, map}
use native.Mathlib.Omega.{arith}

module _ {ℓ} {A : Type ℓ} ⦃e : Equality A⦄ where
  abbrev pub Distinct : List A → Type 0
  Distinct [] = Unit
  Distinct (x ∷ xs) = (includes xs x ≡ false) × Distinct xs

  pub Distinct-concat :
      (xs : List A) (a : A) → Distinct xs → includes xs a ≡ false → Distinct (xs ++ (a ∷ []))
  Distinct-concat [] a d h = (refl, tt)
  Distinct-concat (x ∷ xs) a d h =
      ground
        (arith, Distinct-concat xs a d.1, includes-append xs (a ∷ []) x, ==_iff x a, ==_iff a x)

module _ {ℓ κ} {A : Type ℓ} {B : Type κ} ⦃e : Equality B⦄ where
  pub includes-map-filter :
      (f : A → B) (p : A → Bool) (xs : List A) (b : B)
      → includes (map f xs) b ≡ false
      → includes (map f (filter p xs)) b ≡ false
  includes-map-filter f p [] b h = refl
  includes-map-filter f p (x ∷ xs) b h = ground (arith, includes-map-filter f p xs b)

  pub Distinct-filter :
      (f : A → B) (p : A → Bool) (xs : List A)
      → Distinct (map f xs)
      → Distinct (map f (filter p xs))
  Distinct-filter f p [] d = tt
  Distinct-filter f p (x ∷ xs) d =
      ground (arith, Distinct-filter f p xs d.1, includes-map-filter f p xs (f x) d.0)

  -- A key names at most one row.
  pub length-filter_key :
      (f : A → B) (b : B) (xs : List A)
      → Distinct (map f xs)
      → length (filter (λ x. f x == b) xs) ≤ 1
  length-filter_key f b [] d = omega arith
  length-filter_key f b (x ∷ xs) d =
      ground (arith, length-filter_key f b xs d.1, none_left xs, ==_iff (f x) b)
    where
      none_left : (ys : List A) → includes (map f ys) b ≡ false → filter (λ y. f y == b) ys ≡ []
      none_left [] h = refl
      none_left (y ∷ ys) h = ground (arith, none_left ys)

pub pair_iff {ℓ κ} :
    {A : Type ℓ} {B : Type κ} ⦃a : Equality A⦄ ⦃b : Equality B⦄ (x y : A × B)
    → ((x.0 == y.0 && x.1 == y.1) ≡ true) ↔ (x ≡ y)
pair_iff x y = (
  λ h.
      let e = (==_iff x.0 y.0).0 (ground arith) in
      let k = (==_iff x.1 y.1).0 (ground arith) in λ i. (e i, k i),
  λ e. rw ((==_iff x.0 y.0).1 (ap (λ z. z.0) e), (==_iff x.1 y.1).1 (ap (λ z. z.1) e)) refl,
)

-- Pairs are equal when both parts are.
instance abbrev pub pair_eq {ℓ κ} :
    {A : Type ℓ} {B : Type κ} ⦃a : Equality A⦄ ⦃b : Equality B⦄ → Equality (A × B)
pair_eq = record { test = λ x y. x.0 == y.0 && x.1 == y.1; test_iff = pair_iff }
