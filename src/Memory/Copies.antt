-- ===== src/Memory/Copies.antt =====
-- Copies of slices and of what pointers lead to, as the functions of
-- api/v1alpha1/zz_generated.deepcopy.go make them for each type of item.
pub mod Laws
pub mod Copied
use node_readiness_controlle.Prelude.{ℕ, List, [], ◌∷◌, Option, none, some}
use node_readiness_controlle.Memory.Heap.{
  Heap, Kind, Program, and_then, first_item, pure, ◌>>=◌, read_array, load_array, load, allocate,
}

-- A type of objects: the value that one stands for in a memory, and its DeepCopyInto, which gives
-- what is written to `*out`.
pub record Copier (C X V : Type 0) : Type 0 where
  pub read : Heap C → X → Option V
  pub deep_copy_into : X → Program C X

-- An object without pointers: `*out = *in`.
abbrev pub plain : {C X : Type 0} → Copier C X X
plain = record { read = λ h x. some x; deep_copy_into = pure }

abbrev pub read_items : {X V : Type 0} → (X → Option V) → List X → Option (List V)
read_items read [] = some []
read_items read (x ∷ xs) =
    and_then (read x) (λ v. and_then (read_items read xs) (λ vs. some (v ∷ vs)))

module _ {C X V : Type 0} (kind : Kind C X) (copier : Copier C X V) where
  -- A nil slice reads like an empty one.
  abbrev pub read_slice : Heap C → Option ℕ → Option (List V)
  read_slice h none = some []
  read_slice h (some p) = and_then (read_array kind h p) (read_items (copier.read h))

  abbrev pub read_pointer : Heap C → Option ℕ → Option (Option V)
  read_pointer h none = some none
  read_pointer h (some p) =
      and_then (and_then (read_array kind h p) first_item)
        (λ x. and_then (copier.read h x) (λ v. some (some v)))

  -- The loop over the items, or `copy` where they have no pointers.
  abbrev pub copy_items : List X → Program C (List X)
  copy_items [] = pure []
  copy_items (x ∷ xs) = copier.deep_copy_into x >>= λ y. copy_items xs >>= λ ys. pure (y ∷ ys)

  -- `if in.Field != nil`, with `make` and the copies of the items. The array is allocated once its
  -- items are known: nothing reads it before.
  abbrev pub copy_slice : Option ℕ → Program C (Option ℕ)
  copy_slice none = pure none
  copy_slice (some p) =
      load_array kind p >>= λ xs. copy_items xs >>= λ ys. allocate kind ys >>= λ q. pure (some q)

  -- DeepCopy of a pointer: `if in == nil`, `new`, and DeepCopyInto.
  abbrev pub deep_copy : Option ℕ → Program C (Option ℕ)
  deep_copy none = pure none
  deep_copy (some p) = load kind p >>= λ x.
      copier.deep_copy_into x >>= λ y. allocate kind (y ∷ []) >>= λ q. pure (some q)

  abbrev pub slice : Copier C (Option ℕ) (List V)
  slice = record { read = read_slice; deep_copy_into = copy_slice }

  abbrev pub pointer : Copier C (Option ℕ) (Option V)
  pointer = record { read = read_pointer; deep_copy_into = deep_copy }
