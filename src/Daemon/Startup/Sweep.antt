-- ===== src/Daemon/Startup/Sweep.antt =====
-- cuttlefish/cfctl/src/daemon/mod.rs: what `sweep_trash` removes.
use fundroid.Prelude.{
  ℕ, zero, suc, ◌+◌, ◌/◌, ◌%◌, ◌<◌, ◌≡◌, ◌⊎◌, inl, inr, refl, true, false, Option, none, some, List,
  [], ◌∷◌, ◌++◌, All, ltb, arith, Bool-cases,
}
use fundroid.Text.{Text, codes, contains, starts_with}
use fundroid.Text.Numbers.{show, emit, is_digit}
use fundroid.Daemon.Startup.{marker, trash_name, sweep_entries, sweep_base}

abbrev pub Listed : Text → List (Option (Option Text)) → Type 0
Listed n [] = ⊥
Listed n (some (some m) ∷ es) = (n ≡ m) ⊎ Listed n es
Listed n (_ ∷ es) = Listed n es

abbrev pub In : Text → List Text → Type 0
In n [] = ⊥
In n (m ∷ ms) = (n ≡ m) ⊎ In n ms

starts_with-append : (m t : Text) → starts_with (m ++ t) m ≡ true
unfolding starts_with
starts_with-append [] [] = refl
starts_with-append [] (c ∷ t) = refl
starts_with-append (c ∷ m) t = ground (arith, starts_with-append m t)

contains-append : (s m t : Text) → contains (s ++ (m ++ t)) m ≡ true
unfolding contains
contains-append [] [] [] = refl
contains-append [] [] (c ∷ t) = refl
contains-append [] (c ∷ m) t = ground (arith, starts_with-append (c ∷ m) t)
contains-append (c ∷ s) m t = ground (arith, contains-append s m t)

-- A text of digits has no full stop.
abbrev Digits : Text → Type 0
Digits s = All (λ c. is_digit c ≡ true) s

contains-Digits : (s m : Text) → Digits s → contains s (b'.' ∷ m) ≡ false
unfolding contains starts_with is_digit
contains-Digits [] m h = refl
contains-Digits (c ∷ s) m (h, hs) = ground (arith, contains-Digits s m hs)

emit-Digits : (fuel n : ℕ) (out : Text) → n < fuel → Digits out → Digits (emit fuel n out)
unfolding emit is_digit
emit-Digits zero n out h hs = hs
emit-Digits (suc fuel) n out h hs = elim (Bool-cases (ltb n 10)) [
  | inl small ↦ rw small (ground arith, hs)
  | inr large ↦
      rw large (emit-Digits fuel (n / 10) ((b'0' + n % 10) ∷ out) (ground arith) (ground arith, hs))
]

show-Digits : (n : ℕ) → Digits (show n)
unfolding show
show-Digits n = emit-Digits (suc n) n [] (omega arith) tt

sweep-In :
    (n : Text) (es : List (Option (Option Text)))
    → contains n marker ≡ true
    → Listed n es
    → In n (sweep_entries es)
unfolding sweep_entries
sweep-In n [] h l = l
sweep-In n (none ∷ es) h l = sweep-In n es h l
sweep-In n (some none ∷ es) h l = sweep-In n es h l
sweep-In n (some (some m) ∷ es) h (inl e) = rw (← e, h) (inl refl)
sweep-In n (some (some m) ∷ es) h (inr l) = elim (Bool-cases (contains m marker)) [
  | inl swept ↦ rw swept (inr (sweep-In n es h l))
  | inr kept ↦ rw kept (sweep-In n es h l)
]

sweep-contains :
    (n : Text) (es : List (Option (Option Text)))
    → In n (sweep_entries es)
    → contains n marker ≡ true
unfolding sweep_entries
sweep-contains n [] = λ l. absurd l
sweep-contains n (none ∷ es) = sweep-contains n es
sweep-contains n (some none ∷ es) = sweep-contains n es
sweep-contains n (some (some m) ∷ es) = elim (Bool-cases (contains m marker)) [
  | inl swept ↦ rw swept (λ l. elim l [ inl e ↦ rw e swept | inr r ↦ sweep-contains n es r ])
  | inr kept ↦ rw kept (λ l. sweep-contains n es l)
]

-- The sweep schedules the removal of every directory of an instance that was renamed to trash, at
-- any time and by any process, and never of one that is in use. Whether a removal succeeds is up to
-- the host: the sweep only logs it.
pub sweep_base-trash :
    (entries : List (Option (Option Text))) (id : ℕ)
    → ((epoch pid : ℕ)
        → Listed (trash_name (show id) epoch pid) entries
        → In (trash_name (show id) epoch pid) (sweep_base (some entries)))
      × (In (show id) (sweep_base (some entries)) → ⊥)
unfolding sweep_base trash_name
sweep_base-trash entries id = (
  λ epoch pid there.
      sweep-In (trash_name (show id) epoch pid) entries
        (contains-append (show id) marker (show epoch ++ (codes "." ++ show pid))) there,
  λ swept. ground (
    arith,
    sweep-contains (show id) entries swept,
    contains-Digits (show id) (codes "__trash__.") (show-Digits id),
  ),
)
