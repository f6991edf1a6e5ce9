-- ===== src/Memory/Heap.antt =====
-- The memory that api/v1alpha1/zz_generated.deepcopy.go works on. A cell holds an array; a single
-- value behind a pointer is an array of one.
pub mod Deep
use node_readiness_controlle.Prelude.{
  ℕ, suc, List, [], ◌∷◌, Option, none, some, ◌≡◌, nat_eq, if◌then◌else◌,
}

-- `next` is the first address that is free.
pub record Heap (C : Type 0) : Type 0 where
  pub next : ℕ
  pub cell : ℕ → Option C

-- The arrays of items `X` among the cells `C`.
pub record Kind (C X : Type 0) : Type 0 where
  pub array : List X → C
  pub items : C → Option (List X)
  pub items-array : (xs : List X) → items (array xs) ≡ some xs

-- `none` is a fault, such as a read through a pointer to nothing.
abbrev pub Program : Type 0 → Type 0 → Type 0
Program C A = Heap C → Option (A × Heap C)

abbrev pub and_then : {A B : Type 0} → Option A → (A → Option B) → Option B
and_then none f = none
and_then (some a) f = f a

abbrev pub first_item : {X : Type 0} → List X → Option X
first_item [] = none
first_item (x ∷ xs) = some x

module _ {C : Type 0} where
  abbrev pub pure : {A : Type 0} → A → Program C A
  pure a h = some (a, h)

  abbrev pub run_next :
      {A B : Type 0} → (A → Program C B) → Option (A × Heap C) → Option (B × Heap C)
  run_next f none = none
  run_next f (some (a, h)) = f a h

  infixl 5 ◌>>=◌
  abbrev pub ◌>>=◌ : {A B : Type 0} → Program C A → (A → Program C B) → Program C B
  ◌>>=◌ m f h = run_next f (m h)

  abbrev pub returned : {A : Type 0} → Heap C → Option A → Option (A × Heap C)
  returned h none = none
  returned h (some a) = some (a, h)

  module _ {X : Type 0} (kind : Kind C X) where
    abbrev pub read_array : Heap C → ℕ → Option (List X)
    read_array h p = and_then (h.cell p) kind.items

    -- The array at an address, and its first item: what `*p` reads.
    unfoldable pub load_array : ℕ → Program C (List X)
    load_array p h = returned h (read_array h p)

    unfoldable pub load : ℕ → Program C X
    load p h = returned h (and_then (read_array h p) first_item)

    -- `make` or `new`, with what is written there before anything else can read it.
    unfoldable pub allocate : List X → Program C ℕ
    allocate xs h = some (
      h.next,
      record {
        next = suc h.next;
        cell = λ p. if nat_eq p h.next then some (kind.array xs) else h.cell p;
      },
    )
