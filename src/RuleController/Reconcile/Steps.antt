-- ===== src/RuleController/Reconcile/Steps.antt =====
-- One step of a pass at a time: a step goes on, or ends the pass.
use node_readiness_controlle.Prelude.{Option, none, some, ◌≡◌, ap, refl}
use node_readiness_controlle.Platform.{Error, Result, ok, err}
use node_readiness_controlle.RuleController.Reconcile.{
  State, next, stop, no_requeue, Action, ReconcileResult, proceed, ◌>>=◌, call, returned,
}

module _ {W A : Type 0} where
  pub bind-next :
      {B : Type 0} (m : Action W A) (f : A → Action W B) (s t : State W) (a : A)
      → m s ≡ (next a, t)
      → (m >>= f) s ≡ f a t
  bind-next m f s t a e = ap (proceed f) e

  pub bind-stop :
      {B : Type 0} (m : Action W A) (f : A → Action W B) (s t : State W) (r : ReconcileResult)
      (x : Option Error)
      → m s ≡ (stop r x, t)
      → (m >>= f) s ≡ (stop r x, t)
  bind-stop m f s t r x e = ap (proceed f) e

  pub call-ok :
      (r : ReconcileResult) (f : W → Result A × W) (s : State W) (a : A) (w : W)
      → f s.world ≡ (ok a, w)
      → call r f s ≡ (next a, record { controller = s.controller; world = w })
  call-ok r f s a w e = ap (returned r s.controller) e

  pub call-err :
      (r : ReconcileResult) (f : W → Result A × W) (s : State W) (x : Error) (w : W)
      → f s.world ≡ (err x, w)
      → call r f s ≡ (stop r (some x), record { controller = s.controller; world = w })
  call-err r f s x w e = ap (returned r s.controller) e

  -- A pass that ends without an error went on behind each call.
  pub call-done :
      {B : Type 0} (r : ReconcileResult) (f : W → Result A × W) (k : A → Action W B) (s : State W)
      (p : Result A × W)
      → f s.world ≡ p
      → ((call r f >>= k) s).0 ≡ stop no_requeue none
      → (a : A) × (p ≡ (ok a, p.1))
        × ((call r f >>= k) s ≡ k a (record { controller = s.controller; world = p.1 }))
  call-done r f k s (ok a, w) e finished =
      (a, refl, bind-next (call r f) k s _ a (call-ok r f s a w e))
  call-done r f k s (err x, w) e finished =
      absurd (
        cc (ap (λ o. o.0) (bind-stop (call r f) k s _ r (some x) (call-err r f s x w e)), finished))
