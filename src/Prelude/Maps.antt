-- ===== src/Prelude/Maps.antt =====
-- A Go map with string keys, as an association list: its reads and writes, and their laws.
use Prim.Native.String.{String}
use mathlib.Core.Bool.{Bool, true, false, ◌||◌}
use mathlib.Core.List.{List, [], ◌∷◌}
use mathlib.Core.Option.{Option, none, some}
use mathlib.Core.Path.{◌≡◌, refl, sym, ◌∙◌, ap}
use mathlib.Core.Logic.{◌≢◌, ◌↔◌, inl, inr}
use Prim.Native.Nat.{suc, ◌≤◌}
use native.Mathlib.Omega.{arith}
use text.Mathlib.Text.{◌==◌}
use text.Mathlib.TextEquality.{eq_iff}
use node_readiness_controlle.Prelude.Lists.{length, All, any_of}
use node_readiness_controlle.Prelude.Tests.{if◌then◌else◌, Bool-cases}

abbrev pub StringMap : Type 0 → Type 0
StringMap V = List (String × V)

module _ {V : Type 0} where
  -- `v, ok := m[k]`
  abbrev pub lookup : String → StringMap V → Option V
  lookup k [] = none
  lookup k ((j, v) ∷ m) = if j == k then some v else lookup k m

  -- `_, ok := m[k]`
  abbrev pub contains_key : String → StringMap V → Bool
  contains_key k m = elim (lookup k m) [ none ↦ false | some _ ↦ true ]

  -- `m[k] = v`
  abbrev pub insert : String → V → StringMap V → StringMap V
  insert k v [] = (k, v) ∷ []
  insert k v ((j, w) ∷ m) = if j == k then (k, v) ∷ m else (j, w) ∷ insert k v m

  -- `delete(m, k)`
  abbrev pub delete : String → StringMap V → StringMap V
  delete k [] = []
  delete k ((j, w) ∷ m) = if j == k then m else (j, w) ∷ delete k m

  -- No key stands twice, as in every Go map.
  abbrev pub IsMap : StringMap V → Type 0
  IsMap [] = Unit
  IsMap ((j, v) ∷ m) = (lookup j m ≡ none) × IsMap m

  pub lookup-insert :
      (k j : String) (v : V) (m : StringMap V)
      → lookup j (insert k v m) ≡ (if k == j then some v else lookup j m)
  lookup-insert k j v [] = refl
  lookup-insert k j v ((i, w) ∷ m) =
      ground (arith, eq_iff k j, eq_iff i k, eq_iff i j, lookup-insert k j v m)

  pub lookup-delete :
      (k j : String) (m : StringMap V)
      → IsMap m
      → lookup j (delete k m) ≡ (if k == j then none else lookup j m)
  lookup-delete k j [] h = ground arith
  lookup-delete k j ((i, w) ∷ m) h =
      ground (arith, eq_iff k j, eq_iff i k, eq_iff i j, lookup-delete k j m h.1)

  pub insert-IsMap : (k : String) (v : V) (m : StringMap V) → IsMap m → IsMap (insert k v m)
  insert-IsMap k v [] h = (refl, tt)
  insert-IsMap k v ((i, w) ∷ m) h =
      ground (arith, eq_iff i k, eq_iff k i, insert-IsMap k v m h.1, lookup-insert k i v m)

  pub delete-IsMap : (k : String) (m : StringMap V) → IsMap m → IsMap (delete k m)
  delete-IsMap k [] h = tt
  delete-IsMap k ((i, w) ∷ m) h =
      ground (arith, eq_iff i k, eq_iff k i, delete-IsMap k m h.1, lookup-delete k i m h.1)

  length-delete :
      (k : String) (m : StringMap V) → lookup k m ≢ none → length m ≡ suc (length (delete k m))
  length-delete k [] h = absurd (h refl)
  length-delete k ((i, w) ∷ m) h = ground (arith, length-delete k m)

  -- The entries of the second map are all in the first.
  abbrev pub Covers : StringMap V → StringMap V → Type 0
  Covers a b = All (λ e. lookup e.0 a ≡ some e.1) b

  Covers-delete :
      (k : String) (a b : StringMap V)
      → IsMap a
      → lookup k b ≡ none
      → Covers a b
      → Covers (delete k a) b
  Covers-delete k a [] h n cs = tt
  Covers-delete k a ((j, v) ∷ b) h n cs =
      ground (arith, lookup-delete k j a h, eq_iff k j, eq_iff j k, Covers-delete k a b h)

  -- A map that covers another of the same length reads the same at every key.
  pub lookup_of_Covers :
      (a b : StringMap V)
      → IsMap a
      → IsMap b
      → length a ≡ length b
      → Covers a b
      → (k : String) → lookup k a ≡ lookup k b
  lookup_of_Covers [] [] ha hb e cs k = refl
  lookup_of_Covers (x ∷ a) [] ha hb e cs k = absurd (omega arith)
  lookup_of_Covers a ((j, v) ∷ b) ha hb e cs k = ground (
    arith,
    eq_iff j k,
    length-delete j a,
    lookup-delete j k a ha,
    lookup_of_Covers (delete j a) b (delete-IsMap j a ha) hb.1 (ground (arith, length-delete j a))
        (Covers-delete j a b ha hb.0 cs.1) k,
  )

  Covers-cons :
      (j : String) (v : V) (a b : StringMap V)
      → lookup j b ≡ none
      → Covers a b
      → Covers ((j, v) ∷ a) b
  Covers-cons j v a [] n cs = tt
  Covers-cons j v a ((i, w) ∷ b) n cs = ground (arith, eq_iff j i, eq_iff i j, Covers-cons j v a b)

  pub Covers-self : (a : StringMap V) → IsMap a → Covers a a
  Covers-self [] h = tt
  Covers-self ((j, v) ∷ a) h =
      (ground (arith, eq_iff j j), Covers-cons j v a a h.0 (Covers-self a h.1))

  Covers-of_lookup :
      (a b d : StringMap V) → ((k : String) → lookup k a ≡ lookup k b) → Covers b d → Covers a d
  Covers-of_lookup a b [] same cs = tt
  Covers-of_lookup a b ((j, v) ∷ d) same cs = (same j ∙ cs.0, Covers-of_lookup a b d same cs.1)

  length-le_of_Covers : (a b : StringMap V) → IsMap a → IsMap b → Covers a b → length b ≤ length a
  length-le_of_Covers a [] ha hb cs = omega arith
  length-le_of_Covers a ((j, v) ∷ b) ha hb cs =
      let shorter =
        length-le_of_Covers (delete j a) b (delete-IsMap j a ha) hb.1
          (Covers-delete j a b ha hb.0 cs.1) in
      ground (arith, length-delete j a, shorter)

  -- Two maps read the same at every key exactly when they have the same length and the first
  -- covers the second.
  pub same_map_iff :
      (a b : StringMap V)
      → IsMap a
      → IsMap b
      → ((length a ≡ length b) × Covers a b) ↔ ((k : String) → lookup k a ≡ lookup k b)
  same_map_iff a b ha hb = (
    λ h. lookup_of_Covers a b ha hb h.0 h.1,
    λ same.
        let ab = Covers-of_lookup a b b same (Covers-self b hb) in
        let ba = Covers-of_lookup b a a (λ k. sym (same k)) (Covers-self a ha) in
        (omega (arith, length-le_of_Covers a b ha hb ab, length-le_of_Covers b a hb ha ba), ab),
  )

  -- A test of the keys after a write.
  pub any_of-insert :
      (q : String → Bool) (k : String) (v : V) (m : StringMap V)
      → any_of (λ e. q e.0) (insert k v m) ≡ (q k || any_of (λ e. q e.0) m)
  any_of-insert q k v [] = ground arith
  any_of-insert q k v ((i, w) ∷ m) = elim (Bool-cases (i == k)) [
    | inl same ↦ let e = (eq_iff i k).0 same in ground (arith, ap q e)
    | inr apart ↦ ground (arith, any_of-insert q k v m)
  ]
