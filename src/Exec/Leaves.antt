-- ===== src/Exec/Leaves.antt =====
-- What an action that succeeds leaves behind: a predicate of the state before it, and one of its
-- value and of the state after it.
use fundroid.Prelude.{◌≡◌, refl, subst, Bool, true, false, if◌then◌else◌}
use fundroid.Exec.{Exec, Result, ok, err, stuck, pure, fail, hang, gets, continue, ◌>>=◌, map_err}
use fundroid.Exec.Keeps.{Keeps}
use fundroid.Exec.Returns.{ok-injective, unrename}

pub record Leaves {ℓ κ} {S E A : Type ℓ} (P : S → Type κ) (Q : A → S → Type κ) (m : Exec S E A)
    : Type (ℓ ⊔ κ) where
  pub after : (s : S) → P s → (a : A) → (m s).0 ≡ ok a → Q a (m s).1

module _ {ℓ κ} {S E A : Type ℓ} {P : S → Type κ} {Q : A → S → Type κ} where
  pub Leaves-pure : (a : A) → ((s : S) → P s → Q a s) → Leaves P Q (pure {E = E} a)
  Leaves-pure a q = record { after = λ s p b h. subst (λ x. Q x s) (ok-injective _ refl h) (q s p) }

  pub Leaves-gets : (f : S → A) → ((s : S) → P s → Q (f s) s) → Leaves P Q (gets {E = E} f)
  Leaves-gets f q = record { after = λ s p b h. subst (λ x. Q x s) (ok-injective _ refl h) (q s p) }

  pub Leaves-fail : (e : E) → Leaves P Q (fail e)
  Leaves-fail e = record { after = λ s p b h. cc }

  pub Leaves-hang : Leaves P Q (hang {E = E})
  Leaves-hang = record { after = λ s p b h. cc }

  pub Leaves-if :
      (b : Bool) (m n : Exec S E A) → Leaves P Q m → Leaves P Q n → Leaves P Q (if b then m else n)
  Leaves-if true m n km kn = km
  Leaves-if false m n km kn = kn

  pub Leaves-if_known :
      (b : Bool) (m n : Exec S E A)
      → (b ≡ true → Leaves P Q m)
      → (b ≡ false → Leaves P Q n)
      → Leaves P Q (if b then m else n)
  Leaves-if_known true m n km kn = km refl
  Leaves-if_known false m n km kn = kn refl

  pub Leaves-map_err :
      {F : Type ℓ} (g : E → F) (m : Exec S E A) → Leaves P Q m → Leaves P Q (map_err g m)
  unfolding map_err
  Leaves-map_err g m km = record { after = λ s p b h. km.after s p b (unrename g (m s).0 b h) }

module _ {ℓ κ} {S E A : Type ℓ} {P : S → Type κ} where
  pub Leaves-kept : (m : Exec S E A) → Keeps P m → Leaves P (λ a. P) m
  Leaves-kept m k = record { after = λ s p a h. k.run s p }

module _ {ℓ κ} {S E A B : Type ℓ} {R : A → S → Type κ} {Q : B → S → Type κ} where
  Leaves-continue :
      (r : Result E A) (f : A → Exec S E B) (s : S)
      → ((a : A) → r ≡ ok a → R a s)
      → ((a : A) → Leaves (R a) Q (f a))
      → (b : B) → (continue r f s).0 ≡ ok b
      → Q b (continue r f s).1
  Leaves-continue (ok a) f s here kf b h = (kf a).after s (here a refl) b h
  Leaves-continue (err e) f s here kf b h = cc
  Leaves-continue stuck f s here kf b h = cc

module _ {ℓ κ} {S E A B : Type ℓ} {P : S → Type κ} {R : A → S → Type κ} {Q : B → S → Type κ} where
  pub Leaves-bind :
      (m : Exec S E A) (f : A → Exec S E B)
      → Leaves P R m
      → ((a : A) → Leaves (R a) Q (f a))
      → Leaves P Q (m >>= f)
  unfolding ◌>>=◌
  Leaves-bind m f km kf = record {
    after = λ s p b h. Leaves-continue (m s).0 f (m s).1 (km.after s p) kf b h;
  }

-- A fact that is not about the state.
module _ {ℓ κ} {S E A : Type ℓ} {K : Type κ} {Q : A → S → Type κ} where
  pub Leaves-fact : (m : Exec S E A) → (K → Leaves (λ s. Unit {κ}) Q m) → Leaves (λ s. K) Q m
  Leaves-fact m f = record { after = λ s k a h. (f k).after s tt a h }

-- Such a fact beside one that is.
module _ {ℓ κ} {S E A : Type ℓ} {K : Type κ} {P : S → Type κ} {Q : A → S → Type κ} where
  pub Leaves-given : (m : Exec S E A) → (K → Leaves P Q m) → Leaves (λ s. K × P s) Q m
  Leaves-given m f = record { after = λ s p a h. (f p.0).after s p.1 a h }

-- A first step that keeps the predicate.
module _ {ℓ κ} {S E A B : Type ℓ} {P : S → Type κ} {Q : B → S → Type κ} where
  pub Leaves-then :
      (m : Exec S E A) (f : A → Exec S E B)
      → Keeps P m
      → ((a : A) → Leaves P Q (f a))
      → Leaves P Q (m >>= f)
  Leaves-then m f km kf = Leaves-bind m f (Leaves-kept m km) kf

pub ruleset leaves_rules = (Leaves-fail, Leaves-hang, Leaves-if, Leaves-map_err, Leaves-then)
