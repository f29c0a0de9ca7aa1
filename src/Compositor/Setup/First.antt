-- ===== src/Compositor/Setup/First.antt =====
-- compositor-rs/src/main.rs: the connector and the mode that `main` sets up.
use fundroid.Prelude.{
  ℕ, ◌≡◌, refl, subst, ◌⊎◌, Bool, true, false, Option, none, some, List, [], ◌∷◌, arith,
  Option-cases, inl, inr, ltb, if◌then◌else◌,
}
use fundroid.Compositor.{DrmState}
use fundroid.Compositor.Render.{mul_u16}
use fundroid.Compositor.Setup.{
  Connector, Setup, ok, err, Drm, usable, find_connector, fill, orange, Screen, set_up, show, need,
  ◌>>=◌,
}

-- The connector is connected, and this is the first of its modes.
abbrev pub Usable : Drm → ℕ → DrmState → Type 0
Usable d h mode =
    (conn : Connector) × (rest : List DrmState) × (d.get_connector h ≡ some conn)
    × (conn.connected ≡ true)
    × (conn.modes ≡ mode ∷ rest)

-- The kernel tells of the connector, and it is not connected or has no modes.
abbrev pub Useless : Drm → ℕ → Type 0
Useless d h =
    (conn : Connector) × (d.get_connector h ≡ some conn)
    × ((conn.connected ≡ true) → conn.modes ≡ [])

-- The first usable connector of a list.
pub data First (d : Drm) (h : ℕ) (mode : DrmState) : List ℕ → Type 0 where
  here : {hs : List ℕ} → Usable d h mode → First d h mode (h ∷ hs)
  behind : {g : ℕ} {hs : List ℕ} → Useless d g → First d h mode hs → First d h mode (g ∷ hs)

Modes : Connector → ℕ → Type 0
Modes conn h =
    (((conn.connected ≡ true) → conn.modes ≡ []) × (usable h conn ≡ none))
    ⊎ ((mode : DrmState) × (rest : List DrmState) × (conn.connected ≡ true)
        × (conn.modes ≡ mode ∷ rest)
        × (usable h conn ≡ some (h, mode)))

usable-Modes :
    (h : ℕ) (conn : Connector) (b : Bool) (l : List DrmState)
    → conn.connected ≡ b
    → conn.modes ≡ l
    → Modes conn h
unfolding usable Modes
usable-Modes h conn false l e e' = inl ((λ c. cc), rw e refl)
usable-Modes h conn true [] e e' = inl ((λ c. e'), rw (e, e') refl)
usable-Modes h conn true (m ∷ ms) e e' = inr (m, ms, e, e', rw (e, e') refl)

module _ (d : Drm) (h : ℕ) (mode : DrmState) where
  find_connector-First : (hs : List ℕ) → find_connector d hs ≡ ok (h, mode) → First d h mode hs
  unfolding find_connector Modes
  find_connector-First [] found = cc
  find_connector-First (g ∷ hs) found = elim (Option-cases (d.get_connector g)) [
    | inl unknown ↦ absurd (ground arith)
    | inr (conn, known) ↦ elim (usable-Modes g conn conn.connected conn.modes refl refl) [
      | inl (useless, none_here) ↦
          behind (conn, known, useless) (find_connector-First hs (ground arith))
      | inr (m, rest, connected, modes, there) ↦
          let same : (g ≡ h) × (m ≡ mode) = ground arith in
          subst (λ x. First d x mode (g ∷ hs)) same.0
            (here (conn, rest, known, connected, rw (← same.1) modes))
    ]
  ]

-- What holds of the value of a setup that succeeds.
record Ensures {A : Type 0} (Q : A → Type 0) (m : Setup A) : Type 0 where
  at : (a : A) → m ≡ ok a → Q a

module _ {A : Type 0} {Q : A → Type 0} where
  Ensures-ok : (a : A) → Q a → Ensures Q (ok a)
  Ensures-ok a q = record { at = λ b e. subst Q (cc) q }

module _ {A B : Type 0} {Q : B → Type 0} where
  Ensures-bind :
      (m : Setup A) (f : A → Setup B) → ((a : A) → m ≡ ok a → Ensures Q (f a)) → Ensures Q (m >>= f)
  unfolding ◌>>=◌
  Ensures-bind (ok a) f k = k a refl
  Ensures-bind (err e) f k = record { at = λ b h. cc }

  Ensures-then : (m : Setup A) (f : A → Setup B) → ((a : A) → Ensures Q (f a)) → Ensures Q (m >>= f)
  Ensures-then m f k = Ensures-bind m f λ a e. k a

need-some : {A : Type 0} (n : ℕ) (o : Option A) (a : A) → need n o ≡ ok a → o ≡ some a
need-some n none a h = cc
need-some n (some x) a h = cc

abbrev pub Shown : Drm → (ℕ → ℕ) → Screen → Type 0
Shown d pixels screen =
    (handles : List ℕ) × (d.resource_handles ≡ some handles)
    × First d screen.connector screen.mode handles
    × ((i : ℕ)
        → screen.pixels i
          ≡ (if ltb i (mul_u16 screen.mode.width screen.mode.height) then orange else pixels i))

show-Shown :
    (d : Drm) (pixels : ℕ → ℕ) (handles : List ℕ) (chosen : ℕ × DrmState)
    → d.resource_handles ≡ some handles
    → First d chosen.0 chosen.1 handles
    → Ensures (Shown d pixels) (show d pixels chosen)
unfolding show fill
show-Shown d pixels handles chosen known first = Ensures-then _ _ λ conn.
    Ensures-then _ _ λ encoder. Ensures-then _ _ λ possible. Ensures-then _ _ λ crtc.
      Ensures-then _ _ λ u. Ensures-then _ _ λ u. Ensures-then _ _ λ u. Ensures-then _ _ λ u.
        Ensures-then _ _ λ u.
          Ensures-then _ _
            λ u. Ensures-then _ _ λ u. Ensures-ok _ (handles, known, first, λ i. refl)

-- A setup that succeeds shows the first mode of the first connector that is connected and has
-- modes; the first pixels are orange, as many as the product of the two sizes as a u16, and the
-- others are what they were.
pub set_up-First :
    (d : Drm) (pixels : ℕ → ℕ) (screen : Screen)
    → set_up d pixels ≡ ok screen
    → Shown d pixels screen
unfolding set_up
set_up-First d pixels screen done = ensured.at screen done
  where
    ensured : Ensures (Shown d pixels) (set_up d pixels)
    ensured = Ensures-then _ _ λ u. Ensures-bind _ _ λ handles known.
        Ensures-bind _ _ λ chosen found.
          show-Shown d pixels handles chosen (need-some 1 d.resource_handles handles known)
            (find_connector-First d chosen.0 chosen.1 handles found)
