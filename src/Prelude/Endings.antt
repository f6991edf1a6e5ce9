-- ===== src/Prelude/Endings.antt =====
-- How texts end.
use Prim.Native.String.{String, ◌++◌, count}
use mathlib.Core.Path.{◌≡◌, ap, sym, ◌∙◌}
use mathlib.Core.Logic.{◌≢◌}
use mathlib.Core.List.{List, [], ◌∷◌}
use native.Mathlib.Omega.{arith}
use text.Mathlib.TextEquality.{eq_iff}
use text.Mathlib.TextLemmas.{append_assoc, append_inj, length-append}
use node_readiness_controlle.Prelude.Lists.{All}
use node_readiness_controlle.Prelude.Format.{join}

abbrev pub HasEnd : String → String → Type 0
HasEnd e s = (t : String) × (s ≡ t ++ e)

pub append-HasEnd : (e s t : String) → HasEnd e t → HasEnd e (s ++ t)
append-HasEnd e s t (u, h) = (s ++ u, ap (λ x. s ++ x) h ∙ sym (append_assoc s u e))

pub join-HasEnd :
    (e sep s : String) (l : List String) → All (HasEnd e) (s ∷ l) → HasEnd e (join sep (s ∷ l))
unfolding join
join-HasEnd e sep s [] h = h.0
join-HasEnd e sep s (t ∷ l) h =
    append-HasEnd e s _ (append-HasEnd e sep _ (join-HasEnd e sep t l h.1))

-- A text does not end in two ways.
pub s_or_d : (s t : String) → s ++ "s" ≢ t ++ "d"
s_or_d s t e =
    let same : count s ≡ count t =
      omega (arith, sym (length-append s "s") ∙ ap count e ∙ length-append t "d") in
    let last = (append_inj e same).1 in ground (arith, eq_iff "s" "d", last)
