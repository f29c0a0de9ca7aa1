-- ===== src/DrmRect/Display/Shows.antt =====
-- rust/drm_rect/src/lib.rs: what `fill_display` puts on which screen.
use fundroid.Prelude.{
  ℕ, ◌+◌, ◌*◌, ◌<◌, ◌≤◌, ◌≡◌, length, refl, Bool, true, false, Option, none, some, List, [], ◌∷◌,
  ◌++◌, arith, inl, inr, Option-cases, ap, sym, subst, ◌∙◌,
}
use fundroid.Exec.{ok, attempt, ◌>>=◌}
use fundroid.Exec.Leaves.{Leaves, Leaves-bind, Leaves-pure, Leaves-if_known, Leaves-fail}
use fundroid.DrmRect.{Rgb, fill_buffer_with_color}
use fundroid.DrmRect.Pixels.{get_elem?, channel, get_elem?-fill_buffer_with_color}
use fundroid.DrmRect.Display.{
  Mode, Info, Failure, Card, Held, Drawing, check, need, first, or_else, usable,
  find_connected_connector, draw, fill_display,
}

-- The first usable connector of a list, among connectors that all answer.
pub data First (card : Card) (info : Info) : List ℕ → Type 0 where
  here :
      {h : ℕ} {hs : List ℕ}
      → card.get_connector h ≡ some info
      → usable info ≡ true
      → First card info (h ∷ hs)
  behind :
      {h : ℕ} {hs : List ℕ} (other : Info)
      → card.get_connector h ≡ some other
      → usable other ≡ false
      → First card info hs
      → First card info (h ∷ hs)

-- An answer that is needed, in a state that stays.
need-Leaves :
    {A : Type 0} (o : Option A) (e : Failure) (s : Held)
    → Leaves (λ t. t ≡ s) (λ a t. (o ≡ some a) × (t ≡ s)) (need o e)
need-Leaves none e s = Leaves-fail e
need-Leaves (some a) e s = Leaves-pure a λ t p. (refl, p)

-- A fact about an answer, beside the state that stays.
known-Leaves :
    {A K : Type 0} {Q : A → Held → Type 0} (s : Held) (m : Drawing A)
    → (K → Leaves (λ t. t ≡ s) Q m)
    → Leaves (λ t. K × (t ≡ s)) Q m
known-Leaves s m f = record { after = λ t p a h. (f p.0).after t p.1 a h }

check-Leaves : (b : Bool) (e : Failure) (s : Held) → Leaves (λ t. t ≡ s) (λ u t. t ≡ s) (check b e)
check-Leaves true e s = Leaves-pure tt λ t p. p
check-Leaves false e s = Leaves-fail e

module _ (card : Card) where
  find_connected_connector-First :
      (hs : List ℕ) (s : Held)
      → Leaves
          (λ t. t ≡ s)
          (λ info t. First card info hs × (t ≡ s))
          (find_connected_connector card hs)
  unfolding find_connected_connector
  find_connected_connector-First [] s = Leaves-fail _
  find_connected_connector-First (h ∷ hs) s =
      Leaves-bind _ _ (need-Leaves (card.get_connector h) _ s) λ info.
        Leaves-if_known (usable info) _ _ (λ good. Leaves-pure info λ t p. (here p.0 good, p.1))
          (λ bad. record {
            after = λ t p found h.
                let rest = (find_connected_connector-First hs s).after t p.1 found h in
                (behind info p.0 bad rest.0, rest.1);
          })

module _ (card : Card) (color : Rgb) (s : Held) where
  -- Every byte of a whole pixel has the value of its channel in the colour, and no byte is added.
  abbrev pub Colored : (bytes painted : List ℕ) → Type 0
  Colored bytes painted =
      (pixel k : ℕ)
      → k < 4
      → pixel * 4 + 4 ≤ length bytes
      → (get_elem? painted (pixel * 4 + k) ≡ some (channel color k))
        × (length painted ≡ length bytes)

  -- One picture: a new buffer of the mode, filled; and nothing that is held any more.
  abbrev pub Drawn : ℕ → ℕ → Mode → (bytes painted : List ℕ) → Held → Type 0
  Drawn connector crtc mode bytes painted t =
      (card.dumb_buffer mode ≡ some bytes)
      × (t.pictures
          ≡ s.pictures
            ++ record { crtc = crtc; connector = connector; mode = mode; bytes = painted } ∷ [])
      × (t.buffer ≡ none)
      × (t.framebuffer ≡ false)

  draw-Drawn :
      (connector crtc : ℕ) (mode : Mode)
      → (draw card color connector mode crtc s).0 ≡ ok tt
      → (bytes : List ℕ) × Drawn connector crtc mode bytes
          (fill_buffer_with_color color bytes)
          (draw card color connector mode crtc s).1
  unfolding draw ◌>>=◌ attempt
  draw-Drawn connector crtc mode done = elim (Option-cases (card.dumb_buffer mode)) [
    | inl without ↦ absurd (ground arith)
    | inr (bytes, with) ↦ (bytes, ground arith)
  ]

  -- What was on a screen in the meantime.
  abbrev pub Shown : Held → Type 0
  Shown t =
      (handles : List ℕ) × (info : Info) × (mode : Mode) × (encoder : ℕ) × (crtc : ℕ)
      × (bytes : List ℕ) × (painted : List ℕ) × (card.resource_handles ≡ some handles)
      × First card info handles
      × (first info.modes ≡ some mode)
      × (or_else info.current_encoder (first info.encoders) ≡ some encoder)
      × (card.get_encoder encoder ≡ some (some crtc))
      × Drawn info.handle crtc mode bytes painted t
      × Colored bytes painted

  draw-Leaves :
      (handles : List ℕ) (info : Info) (mode : Mode) (encoder crtc : ℕ)
      → card.resource_handles ≡ some handles
      → First card info handles
      → first info.modes ≡ some mode
      → or_else info.current_encoder (first info.encoders) ≡ some encoder
      → card.get_encoder encoder ≡ some (some crtc)
      → Leaves (λ t. t ≡ s) (λ u. Shown) (draw card color info.handle mode crtc)
  draw-Leaves handles info mode encoder crtc listed found moded encoded answered = record {
    after = λ t same u h.
        let drawn =
          draw-Drawn info.handle crtc mode
            (ap (λ x. (draw card color info.handle mode crtc x).0) (sym same) ∙ h) in
        subst (λ x. Shown (draw card color info.handle mode crtc x).1) (sym same)
          (
            handles,
            info,
            mode,
            encoder,
            crtc,
            drawn.0,
            fill_buffer_with_color color drawn.0,
            listed,
            found,
            moded,
            encoded,
            answered,
            drawn.1,
            λ pixel k h fits. get_elem?-fill_buffer_with_color color drawn.0 pixel k h fits,
          );
  }

  fill_display-Leaves : Leaves (λ t. t ≡ s) (λ u. Shown) (fill_display card color)
  unfolding fill_display
  fill_display-Leaves = Leaves-bind _ _ (check-Leaves card.opens _ s) λ u.
      Leaves-bind _ _ (need-Leaves card.resource_handles _ s) λ handles. known-Leaves s _ λ listed.
        Leaves-bind _ _ (find_connected_connector-First card handles s) λ info.
          known-Leaves s _ λ found. Leaves-bind _ _ (need-Leaves (first info.modes) _ s) λ mode.
            known-Leaves s _ λ moded. Leaves-bind _ _ (need-Leaves _ _ s) λ encoder.
              known-Leaves s _ λ encoded.
                Leaves-bind _ _ (need-Leaves (card.get_encoder encoder) _ s) λ answer.
                  known-Leaves s _ λ asked. Leaves-bind _ _ (need-Leaves answer _ s) λ crtc.
                    known-Leaves s _ λ there.
                      draw-Leaves handles info mode encoder crtc listed found moded encoded
                        (asked ∙ ap some there)

  -- A run that succeeds puts one picture on the screen: on the first connector that is connected and
  -- has modes, with its first mode, by the CRTC of its current encoder or else of its first; the
  -- bytes are those of a new buffer, each
  -- whole pixel in the colour. The buffer and the framebuffer are
  -- given back.
  pub fill_display-shows :
      (fill_display card color s).0 ≡ ok tt → Shown (fill_display card color s).1
  fill_display-shows done = fill_display-Leaves.after s refl tt done
