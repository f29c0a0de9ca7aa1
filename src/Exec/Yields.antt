-- ===== src/Exec/Yields.antt =====
-- Actions that succeed: from a state where a predicate holds, a value is returned, and it and the
-- state after it have a property.
use fundroid.Prelude.{◌≡◌, ◌≢◌, refl, subst}
use fundroid.Exec.{Exec, Result, ok, err, stuck, pure, continue, ◌>>=◌, attempt, caught}
use fundroid.Exec.Finishes.{Finishes}
use fundroid.Exec.Leaves.{Leaves}
use fundroid.Exec.Returns.{ok-injective}

pub record Yields {ℓ κ} {S E A : Type ℓ} (P : S → Type κ) (Q : A → S → Type κ) (m : Exec S E A)
    : Type (ℓ ⊔ κ) where
  pub run : (s : S) → P s → (a : A) × ((m s).0 ≡ ok a) × Q a (m s).1

module _ {ℓ κ} {S E A : Type ℓ} {P : S → Type κ} {Q : A → S → Type κ} where
  pub Yields-pure : (a : A) → ((s : S) → P s → Q a s) → Yields P Q (pure {E = E} a)
  Yields-pure a q = record { run = λ s p. (a, refl, q s p) }

  pub Yields-Leaves : (m : Exec S E A) → Yields P Q m → Leaves P Q m
  Yields-Leaves m k = record {
    after = λ s p a h.
        let (b, e, q) = k.run s p in subst (λ x. Q x (m s).1) (ok-injective (m s).0 e h) q;
  }

module _ {ℓ κ} {S E A B : Type ℓ} {P : S → Type κ} {Q : B → S → Type κ} where
  Yields-continue :
      (r : Result E A) (f : A → Exec S E B) (s : S) (a : A)
      → r ≡ ok a
      → P s
      → Yields P Q (f a)
      → (b : B) × ((continue r f s).0 ≡ ok b) × Q b (continue r f s).1
  Yields-continue r f s a e here kf = rw e (kf.run s here)

module _ {ℓ κ} {S E A B : Type ℓ} {P : S → Type κ} {R : A → S → Type κ} {Q : B → S → Type κ} where
  pub Yields-bind :
      (m : Exec S E A) (f : A → Exec S E B)
      → Yields P R m
      → ((a : A) → Yields (R a) Q (f a))
      → Yields P Q (m >>= f)
  unfolding ◌>>=◌
  Yields-bind m f km kf = record {
    run = λ s p. let (a, e, here) = km.run s p in Yields-continue (m s).0 f (m s).1 a e here (kf a);
  }

-- An action that ends gives its result, a value or an error, to the caller that catches it.
module _ {ℓ} {E F A : Type ℓ} where
  caught-ends : (r : Result E A) → r ≢ stuck → caught {F = F} r ≡ ok r
  caught-ends (ok a) ends = refl
  caught-ends (err e) ends = refl
  caught-ends stuck ends = absurd (ends refl)

module _ {ℓ κ} {S E F A : Type ℓ} {P : S → Type κ} where
  pub Yields-attempt : (m : Exec S E A) → Finishes P m → Yields P (λ r. P) (attempt {F = F} m)
  unfolding attempt
  Yields-attempt m k = record {
    run = λ s p. let (ends, after) = k.run s p in ((m s).0, caught-ends (m s).0 ends, after);
  }
