-- ===== src/Exec/Returns.antt =====
-- Predicates of the value that an action returns, from whatever state it starts.
use fundroid.Prelude.{Bool, true, false, if◌then◌else◌, ◌≡◌, refl, subst}
use fundroid.Exec.{
  Exec, Result, ok, err, stuck, pure, fail, hang, continue, ◌>>=◌, map_err, rename_error, attempt,
  caught,
}

pub record Returns {ℓ κ} {S E A : Type ℓ} (Q : A → Type κ) (m : Exec S E A) : Type (ℓ ⊔ κ) where
  pub at : (s : S) (a : A) → (m s).0 ≡ ok a → Q a

module _ {ℓ} {E A : Type ℓ} where
  pub ok-injective : {a b : A} → (r : Result E A) → r ≡ ok a → r ≡ ok b → a ≡ b
  ok-injective r h h' = cc

module _ {ℓ} {E F A : Type ℓ} where
  pub unrename : (g : E → F) (r : Result E A) (a : A) → rename_error g r ≡ ok a → r ≡ ok a
  unrename g (ok x) a h = cc
  unrename g (err e) a h = cc
  unrename g stuck a h = cc

module _ {ℓ} {E F A : Type ℓ} where
  pub caught-ok : (r a : Result E A) → caught {F = F} r ≡ ok a → r ≡ a
  caught-ok (ok x) a h = cc
  caught-ok (err e) a h = cc
  caught-ok stuck a h = cc

module _ {ℓ} {S E F A B : Type ℓ} where
  settled :
      (r : Result E A) (f : Result E A → Exec S F B) (s : S) (b : B)
      → (continue (caught r) f s).0 ≡ ok b
      → (f r s).0 ≡ ok b
  settled (ok a) f s b h = h
  settled (err e) f s b h = h
  settled stuck f s b h = cc

  -- A value after a caught result comes from that result.
  pub bind-attempt-ok :
      (m : Exec S E A) (f : Result E A → Exec S F B) (s : S) (b : B)
      → ((attempt m >>= f) s).0 ≡ ok b
      → (f (m s).0 (m s).1).0 ≡ ok b
  unfolding ◌>>=◌ attempt
  bind-attempt-ok m f s b h = settled (m s).0 f (m s).1 b h

module _ {ℓ κ} {S E A : Type ℓ} {Q : A → Type κ} where
  pub Returns-pure : (a : A) → Q a → Returns Q (pure {S = S} {E = E} a)
  Returns-pure a q = record { at = λ s b h. subst Q (ok-injective _ refl h) q }

  pub Returns-fail : (e : E) → Returns Q (fail {S = S} e)
  Returns-fail e = record { at = λ s b h. cc }

  pub Returns-hang : Returns Q (hang {S = S} {E = E})
  Returns-hang = record { at = λ s b h. cc }

  pub Returns-if :
      (b : Bool) (m n : Exec S E A) → Returns Q m → Returns Q n → Returns Q (if b then m else n)
  Returns-if true m n km kn = km
  Returns-if false m n km kn = kn

  pub Returns-map_err :
      {F : Type ℓ} (g : E → F) (m : Exec S E A) → Returns Q m → Returns Q (map_err g m)
  unfolding map_err
  Returns-map_err g m km = record { at = λ s b h. km.at s b (unrename g (m s).0 b h) }

module _ {ℓ κ} {S E A B : Type ℓ} {Q : B → Type κ} where
  Returns-continue :
      (r : Result E A) (f : A → Exec S E B) → ((a : A) → Returns Q (f a)) → Returns Q (continue r f)
  Returns-continue (ok a) f kf = kf a
  Returns-continue (err e) f kf = Returns-fail e
  Returns-continue stuck f kf = Returns-hang

  pub Returns-bind :
      (m : Exec S E A) (f : A → Exec S E B) → ((a : A) → Returns Q (f a)) → Returns Q (m >>= f)
  unfolding ◌>>=◌
  Returns-bind m f kf = record { at = λ s b h. (Returns-continue (m s).0 f kf).at (m s).1 b h }

module _ {ℓ κ} {S E A B : Type ℓ} {Q : B → Type κ} where
  then_continue :
      (r : Result E A) (f : A → Exec S E B)
      → ((a : A) → r ≡ ok a → Returns Q (f a))
      → Returns Q (continue r f)
  then_continue (ok a) f kf = kf a refl
  then_continue (err e) f kf = Returns-fail e
  then_continue stuck f kf = Returns-hang

  -- What is known of the first value is known in the second action.
  pub Returns-then :
      {R : A → Type κ}
      → (m : Exec S E A) (f : A → Exec S E B) → Returns R m
      → ((a : A) → R a → Returns Q (f a))
      → Returns Q (m >>= f)
  unfolding ◌>>=◌
  Returns-then m f km kf = record {
    at = λ s b h. (then_continue (m s).0 f (λ a e. kf a (km.at s a e))).at (m s).1 b h;
  }

pub ruleset returns_rules =
    (Returns-pure, Returns-fail, Returns-hang, Returns-if, Returns-map_err, Returns-bind)
