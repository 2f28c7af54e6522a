-- ===== src/Core/Database/Upgrades.antt =====
-- What the migrations of desktop/core/src/database.rs leave, interrupted or not.
use bit_drive.Prelude.{
  All-map, some-injective, none≢some, ◌+◌, ◌≡◌, ◌≢◌, ◌∙◌, sym, ap, refl, ℕ, zero, suc, true, Option,
  none, some, List, [], ◌∷◌, get_elem?, arith, inl, inr, All,
}
use mathlib.Core.Path.{subst}
use bit_drive.Prelude.Eq.{string_eq}
use bit_drive.Errors.{Result, ok, err, panic, ProtocolError, err≢ok, panic≢ok}
use bit_drive.Loop.{and_then}
use bit_drive.Core.Database.Schema.{Statement}
use bit_drive.Core.Database.Migrations.{
  Schema, Faults, migrations, is_applied, with_fault, migrate_one, migrate_from, run_migrations,
}
use bit_drive.Core.Database.InEffect.{IsInEffect, IsFaithful}
use bit_drive.Core.Database.Turns.{IsStep, IsStep-applied, migrate_one-IsStep}

step-IsFaithful :
    (all : List (List Statement)) (i : ℕ) (m : List Statement) (s t : Schema)
    → get_elem? all i ≡ some m
    → IsStep i m s t
    → IsFaithful all s
    → IsFaithful all t
unfolding IsStep IsFaithful
step-IsFaithful all i m s t here h faithful j n there p = elim (h.1 j p) [
  | inl before ↦ All-map (IsInEffect s) (IsInEffect t) n h.0 (faithful j n there before)
  | inr now ↦
      let same : some m ≡ some n = sym here ∙ ap (get_elem? all) (sym now.0) ∙ there in
      subst (All (IsInEffect t)) (some-injective same) now.1
]

and_then-split {ℓ} :
    (run : Schema × Result (Unit {0})) (rest : Schema → Schema × Result (Unit {0}))
    (P : Schema × Result (Unit {0}) → Type ℓ)
    → (run.1 ≡ ok tt → P (rest run.0))
    → ((r : Result (Unit {0})) → r ≢ ok tt → P (run.0, r))
    → P (and_then run rest)
unfolding and_then
and_then-split (s, ok _) rest P go halt = go refl
and_then-split (s, err e) rest P go halt = halt (err e) err≢ok
and_then-split (s, panic) rest P go halt = halt panic panic≢ok

-- Versions that are recorded stay recorded.
migrate_from-applied :
    (faults : ℕ → Faults) (now i : ℕ) (ms : List (List Statement)) (s : Schema) (j : ℕ)
    → is_applied (suc j) s ≡ true
    → is_applied (suc j) (migrate_from faults now (suc i) ms s).0 ≡ true
unfolding migrate_from
migrate_from-applied faults now i [] s j h = h
migrate_from-applied faults now i (m ∷ ms) s j h =
    let one = migrate_one-IsStep (faults (suc i)) now i m s in
    let t = (migrate_one (faults (suc i)) now (suc i) m s).0 in
    let kept : is_applied (suc j) t ≡ true = IsStep-applied i m s t one.0 j h in
    and_then-split (migrate_one (faults (suc i)) now (suc i) m s)
      (λ u. migrate_from faults now (suc (suc i)) ms u) (λ r. is_applied (suc j) r.0 ≡ true)
      (λ fine. migrate_from-applied faults now (suc i) ms t j kept) (λ r. λ bad. kept)

-- The versions behind a turn, the first and the later ones.
migrate_from-all :
    (faults : ℕ → Faults) (now i : ℕ) (m : List Statement) (ms : List (List Statement)) (t : Schema)
    → is_applied (suc i) t ≡ true
    → ((k : ℕ) (n : List Statement)
        → get_elem? ms k ≡ some n
        → is_applied (suc (suc i + k)) (migrate_from faults now (suc (suc i)) ms t).0 ≡ true)
    → (k : ℕ) (n : List Statement) → get_elem? (m ∷ ms) k ≡ some n
    → is_applied (suc (i + k)) (migrate_from faults now (suc (suc i)) ms t).0 ≡ true
migrate_from-all faults now i m ms t here later zero n there =
    let moved : suc i ≡ suc (i + 0) = omega arith in
    subst (λ v. is_applied v (migrate_from faults now (suc (suc i)) ms t).0 ≡ true) moved
      (migrate_from-applied faults now (suc i) ms t i here)
migrate_from-all faults now i m ms t here later (suc k) n there =
    let moved : suc (suc i + k) ≡ suc (i + suc k) = omega arith in
    subst (λ v. is_applied v (migrate_from faults now (suc (suc i)) ms t).0 ≡ true) moved
      (later k n there)

migrate_from-IsFaithful :
    (all : List (List Statement)) (faults : ℕ → Faults) (now i : ℕ) (ms : List (List Statement))
    (s : Schema)
    → ((k : ℕ) → get_elem? ms k ≡ get_elem? all (i + k))
    → IsFaithful all s
    → let run = migrate_from faults now (suc i) ms s in
      IsFaithful all run.0
      × (run.1 ≡ ok tt
          → (k : ℕ) (m : List Statement) → get_elem? ms k ≡ some m
          → is_applied (suc (i + k)) run.0 ≡ true)
unfolding migrate_from
migrate_from-IsFaithful all faults now i [] s at h =
    (h, λ fine. λ k. λ m. λ there. absurd (none≢some there))
migrate_from-IsFaithful all faults now i (m ∷ ms) s at h =
    let one = migrate_one-IsStep (faults (suc i)) now i m s in
    let t = (migrate_one (faults (suc i)) now (suc i) m s).0 in
    let first : i + 0 ≡ i = omega arith in
    let entry : get_elem? all i ≡ some m = ap (get_elem? all) (sym first) ∙ sym (at 0) in
    let next : IsFaithful all t = step-IsFaithful all i m s t entry one.0 h in
    let tail : (k : ℕ) → get_elem? ms k ≡ get_elem? all (suc i + k) = λ k.
      let moved : i + suc k ≡ suc i + k = omega arith in at (suc k) ∙ ap (get_elem? all) moved in
    let rest = migrate_from-IsFaithful all faults now (suc i) ms t tail next in
    and_then-split (migrate_one (faults (suc i)) now (suc i) m s)
      (λ u. migrate_from faults now (suc (suc i)) ms u)
      (λ r.
        IsFaithful all r.0
        × (r.1 ≡ ok tt
            → (k : ℕ) (n : List Statement) → get_elem? (m ∷ ms) k ≡ some n
            → is_applied (suc (i + k)) r.0 ≡ true))
      (λ fine. (rest.0, λ done. migrate_from-all faults now i m ms t (one.1 fine) (rest.1 done)))
      (λ r. λ bad. (next, λ done. absurd (bad done)))

from_start : (k : ℕ) → get_elem? migrations k ≡ get_elem? migrations (0 + k)
from_start k = let counted : k ≡ 0 + k = omega arith in ap (get_elem? migrations) counted

-- On a schema in which every recorded version has all its tables and indexes, `run_migrations` leaves
-- such a schema wherever a query, a batch of statements or the recording of a version breaks off;
-- when it succeeds, each migration is recorded under its number, counted from 1, and each table
-- and index of its statements is there.
pub run_migrations-IsFaithful :
    (created : Option ProtocolError) (faults : ℕ → Faults) (now : ℕ) (s : Schema)
    → IsFaithful migrations s
    → let run = run_migrations created faults now s in
      IsFaithful migrations run.0
      × (run.1 ≡ ok tt
          → (i : ℕ) (m : List Statement) → get_elem? migrations i ≡ some m
          → (is_applied (suc i) run.0 ≡ true) × All (IsInEffect run.0) m)
unfolding run_migrations with_fault IsFaithful
run_migrations-IsFaithful (some e) faults now s h = (h, λ fine. absurd (err≢ok fine))
run_migrations-IsFaithful none faults now s h =
    let run = migrate_from-IsFaithful migrations faults now 0 migrations s from_start h in
    let counted : (i : ℕ) → suc (0 + i) ≡ suc i = λ i. omega arith in
    (
      run.0,
      λ fine. λ i. λ m. λ there.
          let recorded : is_applied (suc i) (migrate_from faults now 1 migrations s).0 ≡ true =
            subst (λ v. is_applied v (migrate_from faults now 1 migrations s).0 ≡ true) (counted i)
              (run.1 fine i m there) in
          (recorded, run.0 i m there recorded),
    )
