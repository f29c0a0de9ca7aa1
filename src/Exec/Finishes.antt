-- ===== src/Exec/Finishes.antt =====
-- Actions that end, with a value or an error, where a predicate holds that they keep.
use fundroid.Prelude.{◌≢◌, refl, Bool, true, false, if◌then◌else◌}
use fundroid.Exec.{
  Exec, Result, ok, err, stuck, pure, fail, gets, modify, ◌>>◌, continue, ◌>>=◌, map_err, attempt,
  rename_error, caught,
}

pub record Finishes {ℓ κ} {S E A : Type ℓ} (P : S → Type κ) (m : Exec S E A) : Type (ℓ ⊔ κ) where
  pub run : (s : S) → P s → ((m s).0 ≢ stuck) × P (m s).1

module _ {ℓ κ} {S E A : Type ℓ} {P : S → Type κ} where
  pub Finishes-pure : (a : A) → Finishes P (pure {E = E} a)
  Finishes-pure a = record { run = λ s p. ((λ h. cc), p) }

  pub Finishes-fail : (e : E) → Finishes P (fail {A = A} e)
  Finishes-fail e = record { run = λ s p. ((λ h. cc), p) }

  pub Finishes-gets : (f : S → A) → Finishes P (gets {E = E} f)
  Finishes-gets f = record { run = λ s p. ((λ h. cc), p) }

  pub Finishes-if :
      (b : Bool) (m n : Exec S E A) → Finishes P m → Finishes P n → Finishes P (if b then m else n)
  Finishes-if true m n km kn = km
  Finishes-if false m n km kn = kn

module _ {ℓ κ} {S E A B : Type ℓ} {P : S → Type κ} where
  Finishes-continue :
      (r : Result E A) (f : A → Exec S E B) (s : S)
      → r ≢ stuck
      → P s
      → ((a : A) → Finishes P (f a))
      → ((continue r f s).0 ≢ stuck) × P (continue r f s).1
  Finishes-continue (ok a) f s ends p kf = (kf a).run s p
  Finishes-continue (err e) f s ends p kf = ((λ h. cc), p)
  Finishes-continue stuck f s ends p kf = absurd (ends refl)

  pub Finishes-bind :
      (m : Exec S E A) (f : A → Exec S E B)
      → Finishes P m
      → ((a : A) → Finishes P (f a))
      → Finishes P (m >>= f)
  unfolding ◌>>=◌
  Finishes-bind m f km kf = record {
    run = λ s p. Finishes-continue (m s).0 f (m s).1 (km.run s p).0 (km.run s p).1 kf;
  }

module _ {ℓ} {E F A : Type ℓ} where
  rename_error-ends : (g : E → F) (r : Result E A) → r ≢ stuck → rename_error g r ≢ stuck
  rename_error-ends g (ok a) ends h = cc
  rename_error-ends g (err e) ends h = cc
  rename_error-ends g stuck ends h = ends refl

module _ {ℓ κ} {S E F A : Type ℓ} {P : S → Type κ} where
  pub Finishes-map_err : (g : E → F) (m : Exec S E A) → Finishes P m → Finishes P (map_err g m)
  unfolding map_err
  Finishes-map_err g m km = record {
    run = λ s p. (rename_error-ends g (m s).0 (km.run s p).0, (km.run s p).1);
  }

module _ {ℓ κ} {S E F A B : Type ℓ} {P : S → Type κ} where
  Finishes-caught :
      (r : Result E A) (f : Result E A → Exec S F B) (s : S)
      → r ≢ stuck
      → P s
      → ((r : Result E A) → r ≢ stuck → Finishes P (f r))
      → ((continue (caught r) f s).0 ≢ stuck) × P (continue (caught r) f s).1
  Finishes-caught (ok a) f s ends p kf = (kf (ok a) ends).run s p
  Finishes-caught (err e) f s ends p kf = (kf (err e) ends).run s p
  Finishes-caught stuck f s ends p kf = absurd (ends refl)

  -- What follows a caught result may rely on there being one.
  pub Finishes-bind-attempt :
      (m : Exec S E A) (f : Result E A → Exec S F B)
      → Finishes P m
      → ((r : Result E A) → r ≢ stuck → Finishes P (f r))
      → Finishes P (attempt m >>= f)
  unfolding ◌>>=◌ attempt
  Finishes-bind-attempt m f km kf = record {
    run = λ s p. Finishes-caught (m s).0 f (m s).1 (km.run s p).0 (km.run s p).1 kf;
  }

module _ {ℓ} {E F A : Type ℓ} where
  caught-ends : (r : Result E A) → r ≢ stuck → caught {F = F} r ≢ stuck
  caught-ends (ok a) ends h = cc
  caught-ends (err e) ends h = cc
  caught-ends stuck ends h = ends refl

module _ {ℓ κ} {S E F A : Type ℓ} {P : S → Type κ} where
  pub Finishes-attempt : (m : Exec S E A) → Finishes P m → Finishes P (attempt {F = F} m)
  unfolding attempt
  Finishes-attempt m km = record {
    run = λ s p. (caught-ends (m s).0 (km.run s p).0, (km.run s p).1);
  }

pub ruleset finishes_rules = (
  Finishes-pure, Finishes-fail, Finishes-gets, Finishes-if, Finishes-bind-attempt, Finishes-bind,
  Finishes-map_err, Finishes-attempt,
)

-- As `Finishes`, for an action that need not keep the predicate.
pub record Ends {ℓ κ} {S E A : Type ℓ} (P : S → Type κ) (m : Exec S E A) : Type (ℓ ⊔ κ) where
  pub run : (s : S) → P s → (m s).0 ≢ stuck

module _ {ℓ κ} {S E A : Type ℓ} {P : S → Type κ} where
  pub Finishes-Ends : (m : Exec S E A) → Finishes P m → Ends P m
  Finishes-Ends m k = record { run = λ s p. (k.run s p).0 }

  pub Ends-if : (b : Bool) (m n : Exec S E A) → Ends P m → Ends P n → Ends P (if b then m else n)
  Ends-if true m n km kn = km
  Ends-if false m n km kn = kn

module _ {ℓ κ} {S E A B : Type ℓ} {P : S → Type κ} where
  Ends-continue :
      (r : Result E A) (f : A → Exec S E B) (s : S)
      → r ≢ stuck
      → P s
      → ((a : A) → Ends P (f a))
      → (continue r f s).0 ≢ stuck
  Ends-continue (ok a) f s ends p kf = (kf a).run s p
  Ends-continue (err e) f s ends p kf = λ h. cc
  Ends-continue stuck f s ends p kf = absurd (ends refl)

  pub Ends-bind :
      (m : Exec S E A) (f : A → Exec S E B)
      → Finishes P m
      → ((a : A) → Ends P (f a))
      → Ends P (m >>= f)
  unfolding ◌>>=◌
  Ends-bind m f km kf = record {
    run = λ s p. Ends-continue (m s).0 f (m s).1 (km.run s p).0 (km.run s p).1 kf;
  }

module _ {ℓ} {S E F A B : Type ℓ} where
  Ends-caught :
      (r : Result E A) (f : Result E A → Exec S F B) (s : S)
      → r ≢ stuck
      → ((r : Result E A) → r ≢ stuck → (f r s).0 ≢ stuck)
      → (continue (caught r) f s).0 ≢ stuck
  Ends-caught (ok a) f s ends kf = kf (ok a) ends
  Ends-caught (err e) f s ends kf = kf (err e) ends
  Ends-caught stuck f s ends kf = absurd (ends refl)

module _ {ℓ κ} {S E F A B : Type ℓ} {P : S → Type κ} where
  -- The last result of all, as a value.
  pub Ends-attempt :
      (m : Exec S E A) (f : Result E A → Exec S F B)
      → Ends P m
      → ((r : Result E A) (s : S) → r ≢ stuck → (f r s).0 ≢ stuck)
      → Ends P (attempt m >>= f)
  unfolding ◌>>=◌ attempt
  Ends-attempt m f km kf = record {
    run = λ s p. Ends-caught (m s).0 f (m s).1 (km.run s p) λ r ends. kf r (m s).1 ends;
  }

-- A last change of the state, before a value.
module _ {ℓ κ} {S E A : Type ℓ} {P : S → Type κ} where
  pub Ends-modify : (f : S → S) (a : A) → Ends P (modify {E = E} f >> pure a)
  unfolding ◌>>=◌
  Ends-modify f a = record { run = λ s p h. cc }

module _ {ℓ κ} {S E F A B : Type ℓ} {P : S → Type κ} where
  Ends-caught-then :
      (r : Result E A) (f : Result E A → Exec S F B) (s : S)
      → r ≢ stuck
      → P s
      → ((r : Result E A) → r ≢ stuck → Ends P (f r))
      → (continue (caught r) f s).0 ≢ stuck
  Ends-caught-then (ok a) f s ends p kf = (kf (ok a) ends).run s p
  Ends-caught-then (err e) f s ends p kf = (kf (err e) ends).run s p
  Ends-caught-then stuck f s ends p kf = absurd (ends refl)

  pub Ends-then :
      (m : Exec S E A) (f : Result E A → Exec S F B)
      → Finishes P m
      → ((r : Result E A) → r ≢ stuck → Ends P (f r))
      → Ends P (attempt m >>= f)
  unfolding ◌>>=◌ attempt
  Ends-then m f km kf = record {
    run = λ s p. Ends-caught-then (m s).0 f (m s).1 (km.run s p).0 (km.run s p).1 kf;
  }
