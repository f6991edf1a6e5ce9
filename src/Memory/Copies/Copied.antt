-- ===== src/Memory/Copies/Copied.antt =====
-- About DeepCopy: what a copy shares with its original.
use node_readiness_controlle.Prelude.{ℕ, Option, some, ◌≡◌}
use node_readiness_controlle.Memory.Heap.{Heap, Kind}
use node_readiness_controlle.Memory.Heap.Deep.{IsValidHeap, Has}
use node_readiness_controlle.Memory.Copies.{Copier, read_pointer, deep_copy}
use node_readiness_controlle.Memory.Copies.Laws.{Keeps, IsDeep, pointer-IsDeep}

-- The copy of what `p` leads to: it is made without a fault and without a change of what there
-- was; it reads as `v` wherever its new cells are, whatever happens to the others; and the
-- original reads as `v` wherever the old cells are.
pub record IsCopied {C X V : Type 0} (kind : Kind C X) (copier : Copier C X V) (p : Option ℕ)
    (v : Option V) (h : Heap C) (out : Option (Option ℕ × Heap C)) : Type 0 where
  pub copy : Option ℕ
  pub after : Heap C
  pub ends : out ≡ some (copy, after)
  pub valid : IsValidHeap after
  pub kept : Keeps h after
  pub copy_reads : (k : Heap C) → Has h.next after k → read_pointer kind copier k copy ≡ some v
  pub original_reads : (k : Heap C) → Keeps h k → read_pointer kind copier k p ≡ some v

pub deep_copy-IsCopied :
    {C X V : Type 0} (kind : Kind C X) (copier : Copier C X V)
    → IsDeep copier
    → (p : Option ℕ) (v : Option V) (h : Heap C) → IsValidHeap h
    → read_pointer kind copier h p ≡ some v
    → IsCopied kind copier p v h (deep_copy kind copier p h)
deep_copy-IsCopied kind copier deep p v h valid e =
    let whole = pointer-IsDeep kind copier deep in
    let made = whole.copies h p v valid e in
    record {
      copy = made.result;
      after = made.after;
      ends = made.runs;
      valid = made.extends.valid;
      kept = made.extends.kept;
      copy_reads = made.holds;
      original_reads = λ k kept. whole.stable h k p v kept e;
    }
