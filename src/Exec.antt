-- ===== src/Exec.antt =====
-- Methods that change shared state and may fail: Rust's `Result` beside the state that is left.
-- `stuck` is no value of the program: it is the result of a loop of the model whose fuel runs out,
-- and of a wait that does not end.
pub mod Keeps
pub mod Returns
pub mod Leaves
pub mod Finishes
pub mod Yields

pub data Result {ℓ κ} (E : Type ℓ) (A : Type κ) : Type (ℓ ⊔ κ) where
  ok : A → Result E A
  err : E → Result E A
  stuck : Result E A

abbrev pub Exec {ℓ} : Type ℓ → Type ℓ → Type ℓ → Type ℓ
Exec S E A = S → Result E A × S

module _ {ℓ} {S E A : Type ℓ} where
  abbrev pub pure : A → Exec S E A
  pure a s = (ok a, s)

  abbrev pub fail : E → Exec S E A
  fail e s = (err e, s)

  -- An action that never returns.
  abbrev pub hang : Exec S E A
  hang s = (stuck, s)

  abbrev pub gets : (S → A) → Exec S E A
  gets f s = (ok (f s), s)

module _ {ℓ} {S E : Type ℓ} where
  abbrev pub modify : (S → S) → Exec S E (Unit {ℓ})
  modify f s = (ok tt, f s)

module _ {ℓ} {S E A B : Type ℓ} where
  abbrev pub continue : Result E A → (A → Exec S E B) → Exec S E B
  continue (ok a) f s = f a s
  continue (err e) f s = (err e, s)
  continue stuck f s = (stuck, s)

  infixl 5 ◌>>=◌ ◌>>◌
  unfoldable pub ◌>>=◌ : Exec S E A → (A → Exec S E B) → Exec S E B
  ◌>>=◌ m f s = let (r, s') = m s in continue r f s'

  abbrev pub ◌>>◌ : Exec S E A → Exec S E B → Exec S E B
  m >> n = m >>= λ _. n

module _ {ℓ} {E F A : Type ℓ} where
  abbrev pub rename_error : (E → F) → Result E A → Result F A
  rename_error g (ok a) = ok a
  rename_error g (err e) = err (g e)
  rename_error g stuck = stuck

  abbrev pub caught : Result E A → Result F (Result E A)
  caught (ok a) = ok (ok a)
  caught (err e) = ok (err e)
  caught stuck = stuck

module _ {ℓ} {S E F A : Type ℓ} where
  -- `map_err` followed by `?`.
  unfoldable pub map_err : (E → F) → Exec S E A → Exec S F A
  map_err g m s = let (r, s') = m s in (rename_error g r, s')

  -- `match m { Ok(a) => …, Err(e) => … }`: the result as a value.
  unfoldable pub attempt : Exec S E A → Exec S F (Result E A)
  attempt m s = let (r, s') = m s in (caught r, s')
