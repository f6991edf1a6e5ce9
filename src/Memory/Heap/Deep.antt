-- ===== src/Memory/Heap/Deep.antt =====
-- What a deep copy is: it reads like the original, from cells that were free before, and it leaves
-- the cells that were in use as they were.
use node_readiness_controlle.Prelude.{
  ℕ, suc, if◌then◌else◌, ◌≤◌, ◌<◌, List, some, ◌≡◌, refl, ap, ◌∙◌, arith, nat_eq,
}
use node_readiness_controlle.Memory.Heap.{
  Heap, Kind, Program, and_then, pure, run_next, ◌>>=◌, read_array, allocate,
}

module _ {C : Type 0} where
  -- Nothing stands at a free address.
  abbrev pub IsValidHeap : Heap C → Type 0
  IsValidHeap h = (p : ℕ) (x : C) → h.cell p ≡ some x → p < h.next

  -- All that stands in `h` at `n` or above stands in `k` too.
  abbrev pub Has : ℕ → Heap C → Heap C → Type 0
  Has n h k = (p : ℕ) (x : C) → n ≤ p → h.cell p ≡ some x → k.cell p ≡ some x

  pub record Extends (h k : Heap C) : Type 0 where
    pub valid : IsValidHeap k
    pub grows : h.next ≤ k.next
    pub kept : (p : ℕ) (x : C) → h.cell p ≡ some x → k.cell p ≡ some x

  pub Extends-self : (h : Heap C) → IsValidHeap h → Extends h h
  Extends-self h v = record { valid = v; grows = omega arith; kept = λ p x e. e }

  -- The program ends without a fault, it leaves what there was, and what it gives has the property
  -- in every memory that has the cells that it made.
  pub record Deep {A : Type 0} (m : Program C A) (h : Heap C) (R : A → Heap C → Type 0)
      : Type 0 where
    pub result : A
    pub after : Heap C
    pub runs : m h ≡ some (result, after)
    pub extends : Extends h after
    pub holds : (k : Heap C) → Has h.next after k → R result k

  pub pure-Deep :
      {A : Type 0} (a : A) (h : Heap C) (R : A → Heap C → Type 0)
      → IsValidHeap h
      → ((k : Heap C) → R a k)
      → Deep (pure a) h R
  pure-Deep a h R v r = record {
    result = a;
    after = h;
    runs = refl;
    extends = Extends-self h v;
    holds = λ k _. r k;
  }

  pub bind-Deep :
      {A B : Type 0} (m : Program C A) (f : A → Program C B) (h : Heap C) (R : A → Heap C → Type 0)
      (Q : B → Heap C → Type 0)
      → Deep m h R
      → ((a : A) (h' : Heap C) → Extends h h' → Deep (f a) h' (λ b k. R a k → Q b k))
      → Deep (m >>= f) h Q
  bind-Deep m f h R Q d next =
      let e = next d.result d.after d.extends in
      record {
        result = e.result;
        after = e.after;
        runs = ap (run_next f) d.runs ∙ e.runs;
        extends = record {
          valid = e.extends.valid;
          grows = omega (arith, d.extends.grows, e.extends.grows);
          kept = λ p x q. e.extends.kept p x (d.extends.kept p x q);
        };
        holds = λ k has.
            e.holds k (λ p x le q. has p x (omega (arith, le, d.extends.grows)) q)
              (d.holds k (λ p x le q. has p x le (e.extends.kept p x q)));
      }

  -- A program that changes nothing, before another one.
  pub read-Deep :
      {A B : Type 0} (m : Program C A) (f : A → Program C B) (h : Heap C) (a : A)
      (Q : B → Heap C → Type 0)
      → m h ≡ some (a, h)
      → Deep (f a) h Q
      → Deep (m >>= f) h Q
  read-Deep m f h a Q e d = record {
    result = d.result;
    after = d.after;
    runs = ap (run_next f) e ∙ d.runs;
    extends = d.extends;
    holds = d.holds;
  }

  module _ {X : Type 0} (kind : Kind C X) (h : Heap C) (valid : IsValidHeap h) where
    -- What is allocated is read from its address.
    pub allocate-Deep :
        (xs : List X) → Deep (allocate kind xs) h (λ p k. read_array kind k p ≡ some xs)
    unfolding allocate
    allocate-Deep xs = record {
      result = h.next;
      after = record {
        next = suc h.next;
        cell = λ p. if nat_eq p h.next then some (kind.array xs) else h.cell p;
      };
      runs = refl;
      extends = record {
        valid = λ p x e. grind (arith, valid p x);
        grows = omega arith;
        kept = λ p x e. grind (arith, valid p x);
      };
      holds = λ k has.
          ap (λ o. and_then o kind.items) (has h.next (kind.array xs) (omega arith) (ground arith))
          ∙ kind.items-array xs;
    }
