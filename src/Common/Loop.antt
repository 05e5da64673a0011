-- ===== src/Common/Loop.antt =====
-- A loop over a slice whose body may return early with an error.
use wevibe_chain.Common.Monad.{Action, Result, ok, pure, ◌>>◌, bind_inversion}
use mathlib.Core.Path.{◌≡◌, sym, ap, ◌∙◌}
use mathlib.Core.List.{List, [], ◌∷◌}

module _ {S A : Type 0} where
  unfoldable pub for_each : (A → Action S (Unit {0})) → List A → Action S (Unit {0})
  for_each f [] = pure tt
  for_each f (a ∷ l) = f a >> for_each f l

  -- A loop that ends has done its first round, and goes on from there.
  pub for_each_inversion :
      (f : A → Action S (Unit {0})) (a : A) (l : List A) (s : S)
      → (for_each f (a ∷ l) s).0 ≡ ok tt
      → ((f a s).0 ≡ ok tt) × (for_each f (a ∷ l) s ≡ for_each f l (f a s).1)
  unfolding for_each
  for_each_inversion f a l s h =
      let (u, e, rest) = bind_inversion (f a) (λ _. for_each f l) s h in (e, rest)

  -- What every round that succeeds keeps, a loop that ends keeps.
  pub for_each_keeps {ℓ} :
      (f : A → Action S (Unit {0})) (P : S → Type ℓ)
      → ((a : A) (s : S) → (f a s).0 ≡ ok tt → P s → P (f a s).1)
      → (l : List A) (s : S) → (for_each f l s).0 ≡ ok tt
      → P s
      → P (for_each f l s).1
  unfolding for_each
  for_each_keeps f P step [] s h p = p
  for_each_keeps f P step (a ∷ l) s h p =
      let (first, rest) = for_each_inversion f a l s h in
      rw rest (
        for_each_keeps f P step l (f a s).1 (ap (λ (r : Result (Unit {0}) × S). r.0) (sym rest) ∙ h)
          (step a s first p))
