-- ===== src/Prelude/Lists.antt =====
-- Lists over the native numbers, and the loops that keep the elements which pass a test.
use Prim.Native.Nat.{ℕ, suc, ◌+◌, ◌≤◌}
use mathlib.Core.Bool.{Bool, true, false}
use mathlib.Core.List.{List, [], ◌∷◌, ◌++◌}
use mathlib.Core.Path.{◌≡◌, refl, subst, sym}
use native.Mathlib.Omega.{arith}
use node_readiness_controlle.Prelude.Tests.{if◌then◌else◌}

module _ {ℓ} {A : Type ℓ} where
  abbrev pub length : List A → ℕ
  length [] = 0
  length (x ∷ xs) = suc (length xs)

  -- `for _, x := range xs { if p(x) { out = append(out, x) } }`
  abbrev pub keep_if : (A → Bool) → List A → List A
  keep_if p [] = []
  keep_if p (x ∷ xs) = if p x then x ∷ keep_if p xs else keep_if p xs

  -- `for _, x := range xs { if p(x) { return true } }; return false`
  abbrev pub any_of : (A → Bool) → List A → Bool
  any_of p [] = false
  any_of p (x ∷ xs) = if p x then true else any_of p xs

  -- How many elements pass a test.
  abbrev pub count_of : (A → Bool) → List A → ℕ
  count_of p [] = 0
  count_of p (x ∷ xs) = if p x then suc (count_of p xs) else count_of p xs

  -- Every element has the property.
  abbrev pub All {κ} : (A → Type κ) → List A → Type κ
  All P [] = Unit
  All P (x ∷ xs) = P x × All P xs

  pub length-append : (xs ys : List A) → length (xs ++ ys) ≡ length xs + length ys
  length-append [] ys = omega arith
  length-append (x ∷ xs) ys = omega (arith, length-append xs ys)

  pub length-keep_if-le : (p : A → Bool) (xs : List A) → length (keep_if p xs) ≤ length xs
  length-keep_if-le p [] = omega arith
  length-keep_if-le p (x ∷ xs) = ground (arith, length-keep_if-le p xs)

  -- A loop that keeps as many elements as there are keeps them all.
  pub keep_if_full :
      (p : A → Bool) (xs : List A) → length (keep_if p xs) ≡ length xs → keep_if p xs ≡ xs
  keep_if_full p [] h = refl
  keep_if_full p (x ∷ xs) h = ground (arith, keep_if_full p xs, length-keep_if-le p xs)

  pub count_of-le-length : (p : A → Bool) (xs : List A) → count_of p xs ≤ length xs
  count_of-le-length p [] = omega arith
  count_of-le-length p (x ∷ xs) = ground (arith, count_of-le-length p xs)

  -- The list holds the element.
  pub data IsIn (a : A) : List A → Type ℓ where
    at_head : {x : A} {xs : List A} → a ≡ x → IsIn a (x ∷ xs)
    in_tail : {x : A} {xs : List A} → IsIn a xs → IsIn a (x ∷ xs)

  pub All-IsIn {κ} : (P : A → Type κ) {a : A} (xs : List A) → All P xs → IsIn a xs → P a
  All-IsIn P [] h r = elim r [ ]
  All-IsIn P (x ∷ xs) h (at_head e) = subst P (sym e) h.0
  All-IsIn P (x ∷ xs) h (in_tail r) = All-IsIn P xs h.1 r
