-- ===== src/Database/Migrations/Runs.antt =====
-- What a run of `Migrate` leaves, and what a second one does.
use Prim.Native.String.{◌++◌ as ◌++ˢ◌}
use vpn_backend.Base.{
  not, List, [], ◌∷◌, ◌++◌, String, ◌≡◌, refl, sym, ap, ◌∙◌, subst, inl, inr, Bool-cases, if_rule,
}
use vpn_backend.Errors.{Error, wrapped}
use vpn_backend.Action.{
  Result, ok, err, Action, lift, on_error, bind_rule, bind-eq-ok, on_error-eq-ok, on_error_world,
}
use mathlib.Core.List.{Permᴰ}
use vpn_backend.Database.Migrations.Order.{IsSorted, sort_files-IsSorted, sort_files-Permᴰ}
use vpn_backend.Database.Migrations.History.{
  History, add_text, add_version, LawfulMigrator, missing, Applies, none_left, next,
}
use vpn_backend.Database.Migrations.{
  Entry, Migrator, up_files, sort_files, contains, apply_file, run_files, migrate,
}

module _ {W : Type 0} (m : Migrator W) where
  -- The run has applied a first stretch of the files, and all of them if it has returned.
  pub record Run (files : List (String × String)) (h : History) (r : Result (Unit {0}))
      (h' : History) : Type 0 where
    pub done : List (String × String)
    pub left : List (String × String)
    pub split : files ≡ done ++ left
    pub applied : Applies m done h h'
    pub complete : r ≡ ok tt → left ≡ []

  stopped : (files : List (String × String)) (h : History) (e : Error) → Run files h (err e) h
  stopped files h e = record {
    done = [];
    left = files;
    split = refl;
    applied = none_left;
    complete = λ k. absurd (cc k);
  }

  module _ (history : W → History) (lawful : LawfulMigrator history m) where
    Runs : List (String × String) → History → Result (Unit {0}) × W → Type 0
    Runs files h r = Run files h r.0 (history r.1)

    applied_ok :
        (name version contents : String) (w : W)
        → (apply_file m name version contents w).0 ≡ ok tt
        → history (apply_file m name version contents w).1
          ≡ add_version version (add_text contents (history w))
    unfolding apply_file
    applied_ok name version contents w h =
        let (body, same) = lawful.transaction_ok _ w h in
        let (_, ran, recorded, end) = bind-eq-ok _ _ w tt body in
        let ran' = on_error-eq-ok _ (m.exec contents) w tt ran in
        same
        ∙ ap history end
        ∙ lawful.create_ok version _ recorded
        ∙ ap (add_version version)
            (ap history (on_error_world _ _ w) ∙ lawful.exec_ok contents w ran')

    stopped_at :
        (files : List (String × String)) (h : History) (e : Error) (w : W)
        → history w ≡ h
        → Runs files h (err e, w)
    unfolding Runs
    stopped_at files h e w same = subst (Run files h (err e)) (sym same) (stopped files h e)

    -- A file in front of a run that goes on from what it leaves.
    cons-Run :
        (name version contents : String) (fs : List (String × String)) (h h₁ : History)
        (r : Result (Unit {0})) (h' : History)
        → m.read_file name ≡ ok contents
        → h₁ ≡ add_version version (add_text contents h)
        → Run fs h₁ r h'
        → Run ((name, version) ∷ fs) h r h'
    cons-Run name version contents fs h h₁ r h' read same run = record {
      done = (name, version) ∷ run.done;
      left = run.left;
      split = ap (λ xs. (name, version) ∷ xs) run.split;
      applied = next read (subst (λ x. Applies m run.done x h') same run.applied);
      complete = run.complete;
    }

    run_files-Runs :
        (applied : List String) (files : List (String × String)) (w : W)
        → Runs (missing applied files) (history w) (run_files m applied files w)
    unfolding Runs run_files
    run_files-Runs applied [] w = record {
      done = [];
      left = [];
      split = refl;
      applied = none_left;
      complete = λ _. refl;
    }
    run_files-Runs applied ((name, version) ∷ files) w =
        elim (Bool-cases (contains version applied)) [
          | inl there ↦ rw there (run_files-Runs applied files w)
          | inr new ↦ rw new (
              bind_rule (Runs all (history w)) _ _ w
                (λ contents read.
                  bind_rule (Runs all (history w)) _ _ _
                    (λ _ ran.
                      let world =
                        on_error_world (wrapped ("read migration " ++ˢ name))
                          (lift (m.read_file name)) w in
                      let text =
                        on_error-eq-ok (wrapped ("read migration " ++ˢ name))
                          (lift (m.read_file name)) w contents read in
                      cons-Run name version contents (missing applied files) (history w) _ _ _ text
                        (applied_ok name version contents _ ran
                          ∙ ap (λ w'. add_version version (add_text contents (history w'))) world)
                        (run_files-Runs applied files _))
                    (λ e failed.
                      stopped_at all (history w) e _
                        (lawful.transaction_err _ _ e failed ∙ ap history (on_error_world _ _ w))))
                (λ e _. stopped_at all (history w) e _ (ap history (on_error_world _ _ w))))
        ]
      where
        all : List (String × String)
        all = (name, version) ∷ missing applied files

    missing_same :
        (applied recorded : List String) (fs : List (String × String))
        → ((version : String) → contains version applied ≡ contains version recorded)
        → missing applied fs ≡ missing recorded fs
    missing_same applied recorded [] same = refl
    missing_same applied recorded (f ∷ fs) same =
        let tail = missing_same applied recorded fs same in rw (same f.1, tail) refl

    -- The history after the three steps before the loop, whatever they answer.
    set_up : W → W
    set_up w = (on_error (wrapped "create schema_migrations table") m.auto_migrate w).1

    listed_dir : W → W
    listed_dir w = (on_error (wrapped "read migrations dir") (lift m.read_dir) (set_up w)).1

    set_up_same : (w : W) → history (set_up w) ≡ history w
    unfolding set_up
    set_up_same w = ap history (on_error_world _ _ w) ∙ lawful.auto_migrate_same w

    listed_same : (w : W) → history (listed_dir w) ≡ history w
    unfolding listed_dir
    listed_same w = ap history (on_error_world _ _ (set_up w)) ∙ set_up_same w

    found_same :
        (w : W)
        → history (on_error (wrapped "load applied migrations") m.find_applied (listed_dir w)).1
          ≡ history w
    found_same w =
        ap history (on_error_world _ _ _) ∙ lawful.find_same (listed_dir w) ∙ listed_same w

    -- The loop, as `Migrate` calls it.
    loop-Runs :
        (entries es : List Entry) (applied : List String) (w : W)
        → m.read_dir ≡ ok entries
        → m.read_dir ≡ ok es
        → (m.find_applied (listed_dir w)).0 ≡ ok applied
        → (w' : W) → history w' ≡ history w
        → Runs
            (missing (history w).recorded (sort_files (up_files entries)))
            (history w)
            (run_files m applied (sort_files (up_files es)) w')
    unfolding Runs
    loop-Runs entries es applied w listed read found w' same =
        let dir : es ≡ entries = cc (listed, read) in
        let now = λ (v : String).
          lawful.find_ok (listed_dir w) applied found v
          ∙ ap (λ (h : History). contains v h.recorded) (listed_same w) in
        let files = sort_files (up_files es) in
        subst
          (λ fs.
            Run fs (history w) (run_files m applied files w').0
              (history (run_files m applied files w').1))
          (missing_same applied (history w).recorded files now
            ∙ ap (λ x. missing (history w).recorded (sort_files (up_files x))) dir)
          (subst
            (λ h.
              Run (missing applied files) h (run_files m applied files w').0
                (history (run_files m applied files w').1))
            same (run_files-Runs applied files w'))

    -- All of `Migrate`, as a run over the files in their order.
    pub migrate-Run :
        (entries : List Entry) (w : W)
        → m.read_dir ≡ ok entries
        → Run
            (missing (history w).recorded (sort_files (up_files entries)))
            (history w)
            (migrate m w).0
            (history (migrate m w).1)
    unfolding Runs migrate set_up listed_dir
    migrate-Run entries w listed =
        let files : List (String × String) =
          missing (history w).recorded (sort_files (up_files entries)) in
        if_rule (λ (a : Action W (Unit {0})). Runs files (history w) (a w)) (not m.configured)
          (stopped files (history w) _)
          (bind_rule (Runs files (history w)) _ _ w
            (λ _ _.
              bind_rule (Runs files (history w)) _ _ _
                (λ es read.
                  bind_rule (Runs files (history w)) _ _ _
                    (λ applied found.
                      loop-Runs entries es applied w listed
                        (on_error-eq-ok (wrapped "read migrations dir") _ _ es read)
                        (on_error-eq-ok (wrapped "load applied migrations") _ _ applied found) _
                        (found_same w))
                    (λ e _. stopped_at files (history w) e _ (found_same w)))
                (λ e _. stopped_at files (history w) e _ (listed_same w)))
            (λ e _. stopped_at files (history w) e _ (set_up_same w)))

    -- Whether `Migrate` returns or not: the migrations of its directory, sorted by their names, less those
    -- that were recorded before, have been applied up to one of them, each read, executed and recorded,
    -- and all of them if it returned; the directory can be read.
    pub migrate_outcome :
        (entries : List Entry) (w : W)
        → m.read_dir ≡ ok entries
        → (files : List (String × String)) × Permᴰ (up_files entries) files
          × IsSorted files
          × Run
              (missing (history w).recorded files)
              (history w)
              (migrate m w).0
              (history (migrate m w).1)
    migrate_outcome entries w listed = (
      sort_files (up_files entries),
      sort_files-Permᴰ (up_files entries),
      sort_files-IsSorted (up_files entries),
      migrate-Run entries w listed,
    )
