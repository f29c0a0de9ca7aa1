-- ===== src/Exec/Keeps.antt =====
-- Predicates of the state that an action keeps, whatever its result: a rule for each way to build
-- an action, for `search`.
use fundroid.Prelude.{Bool, true, false, if◌then◌else◌, ◌≡◌, refl}
use fundroid.Exec.{
  Exec, Result, ok, err, stuck, pure, fail, hang, gets, modify, continue, ◌>>=◌, map_err, attempt,
}

pub record Keeps {ℓ κ} {S E A : Type ℓ} (P : S → Type κ) (m : Exec S E A) : Type (ℓ ⊔ κ) where
  pub run : (s : S) → P s → P (m s).1

module _ {ℓ κ} {S E A : Type ℓ} {P : S → Type κ} where
  pub Keeps-pure : (a : A) → Keeps P (pure {E = E} a)
  Keeps-pure a = record { run = λ s p. p }

  pub Keeps-fail : (e : E) → Keeps P (fail {A = A} e)
  Keeps-fail e = record { run = λ s p. p }

  pub Keeps-hang : Keeps P (hang {E = E} {A = A})
  Keeps-hang = record { run = λ s p. p }

  pub Keeps-gets : (f : S → A) → Keeps P (gets {E = E} f)
  Keeps-gets f = record { run = λ s p. p }

  pub Keeps-if :
      (b : Bool) (m n : Exec S E A) → Keeps P m → Keeps P n → Keeps P (if b then m else n)
  Keeps-if true m n km kn = km
  Keeps-if false m n km kn = kn

module _ {ℓ κ} {S E : Type ℓ} {P : S → Type κ} where
  pub Keeps-modify : (f : S → S) → ((s : S) → P s → P (f s)) → Keeps P (modify {E = E} f)
  Keeps-modify f keep = record { run = keep }

module _ {ℓ κ} {S E A B : Type ℓ} {P : S → Type κ} where
  Keeps-continue :
      (r : Result E A) (f : A → Exec S E B) → ((a : A) → Keeps P (f a)) → Keeps P (continue r f)
  Keeps-continue (ok a) f kf = kf a
  Keeps-continue (err e) f kf = record { run = λ s p. p }
  Keeps-continue stuck f kf = record { run = λ s p. p }

  pub Keeps-bind :
      (m : Exec S E A) (f : A → Exec S E B)
      → Keeps P m
      → ((a : A) → Keeps P (f a))
      → Keeps P (m >>= f)
  unfolding ◌>>=◌
  Keeps-bind m f km kf = record {
    run = λ s p. (Keeps-continue (m s).0 f kf).run (m s).1 (km.run s p);
  }

module _ {ℓ κ} {S E F A : Type ℓ} {P : S → Type κ} where
  pub Keeps-map_err : (g : E → F) (m : Exec S E A) → Keeps P m → Keeps P (map_err g m)
  unfolding map_err
  Keeps-map_err g m km = record { run = km.run }

  pub Keeps-attempt : (m : Exec S E A) → Keeps P m → Keeps P (attempt {F = F} m)
  unfolding attempt
  Keeps-attempt m km = record { run = km.run }

-- The predicate holds after the second action too, where it is kept after each value of the first.
module _ {ℓ κ} {S E A B : Type ℓ} {P : S → Type κ} where
  pub Keeps-after :
      (r : Result E A) (f : A → Exec S E B) (s : S)
      → P s
      → ((a : A) → r ≡ ok a → Keeps P (f a))
      → P (continue r f s).1
  Keeps-after (ok a) f s p kf = (kf a refl).run s p
  Keeps-after (err e) f s p kf = p
  Keeps-after stuck f s p kf = p

pub ruleset keeps_rules = (
  Keeps-pure, Keeps-fail, Keeps-hang, Keeps-gets, Keeps-if, Keeps-bind, Keeps-map_err,
  Keeps-attempt,
)
