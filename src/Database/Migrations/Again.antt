-- ===== src/Database/Migrations/Again.antt =====
-- A second run of `Migrate` after one that returned.
use vpn_backend.Base.{
  true, List, [], ◌∷◌, ◌++◌, String, str_eq, eq_iff, ◌≡◌, refl, sym, ap, ◌∙◌, subst, inl, inr,
  Bool-cases, All, if_rule,
}
use vpn_backend.Action.{ok}
use vpn_backend.Database.Migrations.{Entry, Migrator, up_files, sort_files, contains, migrate}
use vpn_backend.Database.Migrations.History.{
  History, LawfulMigrator, Applies, none_left, next, missing,
}
use vpn_backend.Database.Migrations.Runs.{migrate-Run}

module _ {W : Type 0} (m : Migrator W) where
  -- What was recorded stays recorded.
  kept :
      {fs : List (String × String)} {h h' : History}
      → Applies m fs h h'
      → (v : String) → contains v h.recorded ≡ true
      → contains v h'.recorded ≡ true
  kept none_left v on = on
  kept (next {version = version} read rest) v on =
      kept rest v (if_rule (λ b. b ≡ true) (str_eq version v) refl on)

  recorded :
      {fs : List (String × String)} {h h' : History}
      → Applies m fs h h'
      → All (λ f. contains f.1 h'.recorded ≡ true) fs
  recorded none_left = tt
  recorded (next {version = version} read rest) =
      let same : str_eq version version ≡ true = (eq_iff version version).1 refl in
      (kept rest version (rw same refl), recorded rest)

  none-missing :
      (before after : List String) (fs : List (String × String))
      → ((v : String) → contains v before ≡ true → contains v after ≡ true)
      → All (λ f. contains f.1 after ≡ true) (missing before fs)
      → missing after fs ≡ []
  none-missing before after [] mono all = refl
  none-missing before after (f ∷ fs) mono all = elim (Bool-cases (contains f.1 before)) [
    | inl there ↦ rw (mono f.1 there) (none-missing before after fs mono (rw there at all))
    | inr new ↦
        let (now, rest) : (contains f.1 after ≡ true)
            × All (λ f. contains f.1 after ≡ true) (missing before fs) =
          rw new at all in
        rw now (none-missing before after fs mono rest)
  ]

  nothing :
      {fs : List (String × String)} {h h' : History} (left : List (String × String))
      → Applies m fs h h'
      → [] ≡ fs ++ left
      → h' ≡ h
  nothing left none_left e = refl
  nothing left (next read rest) e = absurd (cc e)

  append-nil : (xs : List (String × String)) → xs ++ [] ≡ xs
  append-nil [] = refl
  append-nil (x ∷ xs) = ap (λ ys. x ∷ ys) (append-nil xs)

  module _ (history : W → History) (lawful : LawfulMigrator history m) where
    -- After a run that returned, each migration is recorded, and a second run changes nothing, whatever
    -- it answers.
    pub migrate-again :
        (entries : List Entry) (w : W)
        → m.read_dir ≡ ok entries
        → (migrate m w).0 ≡ ok tt
        → (missing (history (migrate m w).1).recorded (sort_files (up_files entries)) ≡ [])
          × (history (migrate m (migrate m w).1).1 ≡ history (migrate m w).1)
    migrate-again entries w listed returned =
        let run = migrate-Run m history lawful entries w listed in
        let files = sort_files (up_files entries) in
        let all : missing (history w).recorded files ≡ run.done =
          run.split ∙ ap (λ xs. run.done ++ xs) (run.complete returned) ∙ append-nil run.done in
        let none_missing =
          none-missing (history w).recorded (history (migrate m w).1).recorded files
            (kept run.applied)
            (subst (All (λ f. contains f.1 (history (migrate m w).1).recorded ≡ true)) (sym all)
              (recorded run.applied)) in
        let again = migrate-Run m history lawful entries (migrate m w).1 listed in
        (none_missing, nothing again.left again.applied (sym none_missing ∙ again.split))
