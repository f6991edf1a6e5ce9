-- ===== src/Memory/Copies/Laws.antt =====
-- About the copies of slices and pointers: they are deep where those of the items are.
use node_readiness_controlle.Prelude.{ℕ, List, [], ◌∷◌, Option, none, some, ◌≡◌, refl, ap}
use node_readiness_controlle.Memory.Heap.{
  Heap, Kind, Program, and_then, first_item, ◌>>=◌, returned, read_array, load_array, load,
  allocate,
}
use node_readiness_controlle.Memory.Heap.Deep.{
  IsValidHeap, Deep, pure-Deep, bind-Deep, read-Deep, allocate-Deep,
}
use node_readiness_controlle.Memory.Copies.{Copier, plain, read_items, copy_items, slice, pointer}

-- Inversion of a chain of reads.
pub and_then-some :
    {A B : Type 0} (o : Option A) (f : A → Option B) (b : B)
    → and_then o f ≡ some b
    → (a : A) × (o ≡ some a) × (f a ≡ some b)
and_then-some none f b h = cc
and_then-some (some a) f b h = (a, refl, h)

-- All that stands in `h` stands in `k` too.
abbrev pub Keeps : {C : Type 0} → Heap C → Heap C → Type 0
Keeps {C} h k = (p : ℕ) (y : C) → h.cell p ≡ some y → k.cell p ≡ some y

module _ {C X V : Type 0} (copier : Copier C X V) where
  -- A read survives where the cells stay.
  abbrev pub IsStable : Type 0
  IsStable =
      (h k : Heap C) (x : X) (v : V)
      → Keeps h k
      → copier.read h x ≡ some v
      → copier.read k x ≡ some v

  -- DeepCopyInto ends, and what it gives reads like the original.
  abbrev pub MakesCopies : Type 0
  MakesCopies =
      (h : Heap C) (x : X) (v : V)
      → IsValidHeap h
      → copier.read h x ≡ some v
      → Deep (copier.deep_copy_into x) h (λ y k. copier.read k y ≡ some v)

pub record IsDeep {C X V : Type 0} (copier : Copier C X V) : Type 0 where
  pub stable : IsStable copier
  pub copies : MakesCopies copier

pub plain-IsDeep : {C X : Type 0} → IsDeep (plain {C = C} {X = X})
plain-IsDeep = record {
  stable = λ h k x v kept e. e;
  copies = λ h x v valid e. pure-Deep x h _ valid (λ k. e);
}

-- One DeepCopyInto in a chain that began in the memory `first`, and what comes behind it.
pub then-Deep :
    {C X V B : Type 0} (copier : Copier C X V)
    → IsDeep copier
    → (first h : Heap C) (x : X) (v : V) (f : X → Program C B) (Q : B → Heap C → Type 0)
    → IsValidHeap h
    → Keeps first h
    → copier.read first x ≡ some v
    → ((y : X) (h' : Heap C)
        → IsValidHeap h'
        → Keeps first h'
        → Deep (f y) h' (λ b k. copier.read k y ≡ some v → Q b k))
    → Deep (copier.deep_copy_into x >>= f) h Q
then-Deep copier deep first h x v f Q valid kept e next =
    bind-Deep (copier.deep_copy_into x) f h (λ y k. copier.read k y ≡ some v) Q
      (deep.copies h x v valid (deep.stable first h x v kept e))
      (λ y h' ext. next y h' ext.valid (λ p z q. ext.kept p z (kept p z q)))

module _ {C X V : Type 0} (kind : Kind C X) (copier : Copier C X V) (deep : IsDeep copier) where
  items_stable :
      (h k : Heap C) (xs : List X) (vs : List V)
      → Keeps h k
      → read_items (copier.read h) xs ≡ some vs
      → read_items (copier.read k) xs ≡ some vs
  items_stable h k [] vs kept e = e
  items_stable h k (x ∷ xs) vs kept e =
      let (v, first, later) = and_then-some (copier.read h x) _ vs e in
      let (rest, others, last) = and_then-some (read_items (copier.read h) xs) _ vs later in
      rw (deep.stable h k x v kept first, items_stable h k xs rest kept others) last

  array_stable :
      (h k : Heap C) (p : ℕ) (xs : List X)
      → Keeps h k
      → read_array kind h p ≡ some xs
      → read_array kind k p ≡ some xs
  array_stable h k p xs kept e =
      let (y, found, items) = and_then-some (h.cell p) kind.items xs e in rw (kept p y found) items

  copy_items-Deep :
      (h : Heap C) (xs : List X) (vs : List V)
      → IsValidHeap h
      → read_items (copier.read h) xs ≡ some vs
      → Deep (copy_items kind copier xs) h (λ ys k. read_items (copier.read k) ys ≡ some vs)
  copy_items-Deep h [] vs valid e = pure-Deep [] h _ valid (λ k. e)
  copy_items-Deep h (x ∷ xs) vs valid e =
      let (v, first, later) = and_then-some (copier.read h x) _ vs e in
      let (rest, others, last) = and_then-some (read_items (copier.read h) xs) _ vs later in
      then-Deep copier deep h h x v _ _ valid (λ p z q. q) first
        (λ y h' w kept.
          bind-Deep (copy_items kind copier xs) _ h'
            (λ ys k. read_items (copier.read k) ys ≡ some rest) _
            (copy_items-Deep h' xs rest w (items_stable h h' xs rest kept others))
            (λ ys h'' ext'. pure-Deep (y ∷ ys) h'' _ ext'.valid (λ k r s. rw (r, s) last)))

  slice_stable : IsStable (slice kind copier)
  slice_stable h k none vs kept e = e
  slice_stable h k (some p) vs kept e =
      let (xs, found, items) = and_then-some (read_array kind h p) _ vs e in
      rw (array_stable h k p xs kept found) (items_stable h k xs vs kept items)

  slice_copies : MakesCopies (slice kind copier)
  unfolding load_array
  slice_copies h none vs valid e = pure-Deep none h _ valid (λ k. e)
  slice_copies h (some p) vs valid e =
      let (xs, found, items) = and_then-some (read_array kind h p) _ vs e in
      read-Deep (load_array kind p) _ h xs _ (ap (returned h) found) (
        bind-Deep (copy_items kind copier xs) _ h (λ ys k. read_items (copier.read k) ys ≡ some vs)
          _ (copy_items-Deep h xs vs valid items)
          (λ ys h' ext.
            bind-Deep (allocate kind ys) _ h' (λ q k. read_array kind k q ≡ some ys) _
              (allocate-Deep kind h' ext.valid ys)
              (λ q h'' ext'. pure-Deep (some q) h'' _ ext'.valid (λ k r s. rw r s))))

  pub slice-IsDeep : IsDeep (slice kind copier)
  slice-IsDeep = record { stable = slice_stable; copies = slice_copies }

  pointer_stable : IsStable (pointer kind copier)
  pointer_stable h k none o kept e = e
  pointer_stable h k (some p) o kept e =
      let (x, found, later) = and_then-some (and_then (read_array kind h p) first_item) _ o e in
      let (xs, array, head) = and_then-some (read_array kind h p) _ x found in
      let (v, value, last) = and_then-some (copier.read h x) _ o later in
      rw (array_stable h k p xs kept array, head, deep.stable h k x v kept value) last

  pointer_copies : MakesCopies (pointer kind copier)
  unfolding load
  pointer_copies h none o valid e = pure-Deep none h _ valid (λ k. e)
  pointer_copies h (some p) o valid e =
      let (x, found, later) = and_then-some (and_then (read_array kind h p) first_item) _ o e in
      let (v, value, last) = and_then-some (copier.read h x) _ o later in
      read-Deep (load kind p) _ h x _ (ap (returned h) found) (
        then-Deep copier deep h h x v _ _ valid (λ p z q. q) value
          (λ y h' w kept.
            bind-Deep (allocate kind (y ∷ [])) _ h' (λ q k. read_array kind k q ≡ some (y ∷ [])) _
              (allocate-Deep kind h' w (y ∷ []))
              (λ q h'' ext'. pure-Deep (some q) h'' _ ext'.valid (λ k r s. rw (r, s) last))))

  pub pointer-IsDeep : IsDeep (pointer kind copier)
  pointer-IsDeep = record { stable = pointer_stable; copies = pointer_copies }
