-- ===== src/Manager/Alloc/Fresh.antt =====
-- cuttlefish/cfctl/src/daemon/manager.rs: which id `allocate_id` gives, and when it gives one.
use fundroid.Prelude.{
  ℕ, suc, ◌+◌, ◌%◌, ◌≤◌, ◌≡◌, false, Option, none, some, arith, refl, subst, inl, inr,
}
use fundroid.Exec.{ok, pure, ◌>>=◌, ◌>>◌}
use fundroid.Exec.Keeps.{Keeps, keeps_rules}
use fundroid.Exec.Leaves.{Leaves, Leaves-bind, Leaves-then, Leaves-pure}
use fundroid.Exec.Yields.{Yields, Yields-bind, Yields-pure, Yields-Leaves}
use fundroid.Text.Numbers.{show}
use fundroid.Protocol.{InstanceId}
use fundroid.Files.{Disk, id_alloc, file, text}
use fundroid.Host.{Env, World, attempt_call}
use fundroid.Host.Fs
use fundroid.Manager.Alloc.{
  successor, wrapped, selected_or_fail, open_id_file, store_next, next_of, allocate_id,
}
use fundroid.Manager.Alloc.Search.{
  Shows, Free, Taken, Selected, wrapped-low, wrapped-high, candidate_at-all, select_id-Yields,
}

-- The file with the next id.
abbrev pub Stored : ℕ → World → Type 0
Stored c v = v.disk id_alloc 0 ≡ some (file (text (show c)))

module _ (env : Env) (d : Disk) where
  attempt_call-Shows : Keeps (Shows d) (attempt_call env)
  attempt_call-Shows = record { run = λ w p. p }

  open_id_file-Shows : Keeps (Shows d) (open_id_file env)
  unfolding open_id_file
  open_id_file-Shows = search (keeps_rules, attempt_call-Shows) depth 12

  -- What the id is when the next one is stored.
  abbrev pub Given : InstanceId → World → Type 0
  Given id v = Free d id × Stored (successor id) v

  written-Leaves :
      (c : ℕ) → Leaves (λ v. Unit {0}) (λ a. Stored c) (Fs.write env id_alloc 0 (text (show c)))
  unfolding Fs.write
  written-Leaves c = record { after = λ s p b h. ground arith }

  store_next-Leaves : (c : ℕ) → Leaves (λ v. Unit {0}) (λ a. Stored c) (store_next env c)
  unfolding store_next
  store_next-Leaves c =
      Leaves-then _ _ (record { run = λ s p. p })
        λ a.
          Leaves-then _ _ (record { run = λ s p. p })
            λ a.
              Leaves-bind {R = λ a. Stored c} _ _ (written-Leaves c) λ a.
                Leaves-then _ _ (record { run = λ s p. p }) λ a. record { after = λ s p b h. p }

  stored-Leaves :
      (id c : ℕ)
      → c ≡ successor id
      → Free d id
      → Leaves (λ v. Unit {0}) Given (do store_next env c; pure id)
  stored-Leaves id c next free =
      Leaves-bind {R = λ a. Stored c} _ _ (store_next-Leaves c)
        λ a. Leaves-pure id λ w stored. (free, subst (λ x. Stored x w) next stored)

  chosen-Leaves :
      (start c : ℕ) (o : Option InstanceId)
      → Leaves
          (Selected d 99 start (o, c))
          Given
          (do id ← selected_or_fail o; store_next env c; pure id)
  unfolding ◌>>=◌
  chosen-Leaves start c none = record { after = λ w p a h. cc }
  chosen-Leaves start c (some id) = record {
    after = λ w (p, free, next) a h. (stored-Leaves id c (next id refl) free).after w tt a h;
  }

  pub allocate_id-Leaves : Leaves (Shows d) Given (allocate_id env)
  unfolding allocate_id
  allocate_id-Leaves = Leaves-then _ _ open_id_file-Shows λ buf.
      Leaves-bind _ _ (Yields-Leaves _ (select_id-Yields env d 99 (next_of buf)))
        λ r. chosen-Leaves (wrapped (next_of buf)) r.1 r.0

-- Where an id is allocated, it is from 1 to 99, its instance had neither a metadata file nor a
-- directory, and the id after it (1 after 99) is stored for the next allocation; whatever calls
-- fail, and whatever the stored number was.
pub allocate_id-fresh :
    (env : Env) (w : World) (id : InstanceId)
    → (allocate_id env w).0 ≡ ok id
    → Free w.disk id × Stored (id % 99 + 1) (allocate_id env w).1
allocate_id-fresh env w id h = (allocate_id-Leaves env w.disk).after w (λ s i. refl) id h

-- Without failures of calls.
module _ (env : Env) (d : Disk) (works : (n : ℕ) → env.fails n ≡ false) where
  attempt_call-Yields : Yields (Shows d) (λ a. Shows d) (attempt_call env)
  attempt_call-Yields = record { run = λ w p. (tt, ground (arith, works w.calls), p) }

  open_id_file-Yields : Yields (Shows d) (λ a. Shows d) (open_id_file env)
  unfolding open_id_file
  open_id_file-Yields = Yields-bind _ _ attempt_call-Yields λ a.
      Yields-bind _ _ attempt_call-Yields λ a.
        Yields-bind _ _ attempt_call-Yields
          λ a. Yields-bind _ _ attempt_call-Yields λ a. record { run = λ w p. (_, refl, p) }

  write-Yields :
      (c : ℕ) → Yields (λ v. Unit {0}) (λ a v. Unit {0}) (Fs.write env id_alloc 0 (text (show c)))
  unfolding Fs.write
  write-Yields c = record { run = λ w p. (tt, ground (arith, works w.calls), tt) }

  store_next-Yields : (c : ℕ) → Yields (λ v. Unit {0}) (λ a v. Unit {0}) (store_next env c)
  unfolding store_next Fs.write ◌>>=◌
  store_next-Yields c = record {
    run = λ w p. (
      tt,
      ground (
        arith,
        works w.calls,
        works (suc w.calls),
        works (suc (suc w.calls)),
        works (suc (suc (suc w.calls))),
        works (suc (suc (suc (suc w.calls)))),
      ),
      tt,
    );
  }

  chosen-Yields :
      (i start c : ℕ) (o : Option InstanceId)
      → Free d i
      → 1 ≤ start
      → start ≤ 99
      → Yields
          (Selected d 99 start (o, c))
          (λ a v. Unit {0})
          (do id ← selected_or_fail o; store_next env c; pure id)
  chosen-Yields i start c none (low, high, unknown, missing) from to = record {
    run = λ w (p, taken, next).
        let (k, h, here) = candidate_at-all start i from to low high in
        absurd (free-not-taken (subst (Taken d) here (taken k h)));
  }
    where
      free-not-taken : Taken d i → ⊥
      free-not-taken (inl t) = cc
      free-not-taken (inr t) = cc
  chosen-Yields i start c (some id) free from to =
      Yields-bind _ _ (Yields-pure {Q = λ a v. Unit {0}} id λ w p. tt)
        λ a. Yields-bind _ _ (store_next-Yields c) λ b. Yields-pure _ λ w p. tt

-- Where no call fails and one of the 99 ids is free, an id is allocated: the search covers all of
-- them, wherever it starts.
pub allocate_id-finds :
    (env : Env) (w : World) (i : InstanceId)
    → ((n : ℕ) → env.fails n ≡ false)
    → Free w.disk i
    → (id : InstanceId) × ((allocate_id env w).0 ≡ ok id)
unfolding allocate_id
allocate_id-finds env w i works free = let (id, e, t) = found.run w (λ s i. refl) in (id, e)
  where
    found : Yields (Shows w.disk) (λ a v. Unit {0}) (allocate_id env)
    found = Yields-bind _ _ (open_id_file-Yields env w.disk works) λ buf.
        Yields-bind _ _ (select_id-Yields env w.disk 99 (next_of buf)) λ r.
          chosen-Yields env w.disk works i (wrapped (next_of buf)) r.1 r.0 free
            (wrapped-low (next_of buf)) (wrapped-high (next_of buf))
