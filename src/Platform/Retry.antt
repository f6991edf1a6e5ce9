-- ===== src/Platform/Retry.antt =====
-- Rules for what a retried call leaves behind.
use node_readiness_controlle.Prelude.{◌≡◌, ap, subst, ◌∙◌}
use node_readiness_controlle.Platform.Errors.{Result, ok}
use node_readiness_controlle.Platform.Calls.{Client}
use node_readiness_controlle.Platform.Laws.{Retried, last, again}

module _ {W S : Type 0} (c : Client W S) (fn : W → Result (Unit {0}) × W) where
  -- What a successful call ensures, a successful retry ensures.
  pub Retried-ok :
      (P : W → Type 0)
      → ((w : W) → (fn w).0 ≡ ok tt → P (fn w).1)
      → (out : Result (Unit {0}) × W) (w : W) → Retried c fn out w
      → out.0 ≡ ok tt
      → P out.1
  Retried-ok P step out w (last e) done = subst (λ o. P o.1) e (step w (ap (λ o. o.0) e ∙ done))
  Retried-ok P step out w (again {w' = v} e conflict r) done = Retried-ok P step out v r done

  -- What every call keeps, a retry keeps.
  pub Retried_inv :
      (P : W → Type 0)
      → ((w : W) → P w → P (fn w).1)
      → (out : Result (Unit {0}) × W) (w : W) → Retried c fn out w
      → P w
      → P out.1
  Retried_inv P step out w (last e) h = subst (λ o. P o.1) e (step w h)
  Retried_inv P step out w (again {w' = v} e conflict r) h =
      Retried_inv P step out v r (subst (λ o. P o.1) e (step w h))
