-- ===== src/RuleFile/Loading.antt =====
-- What the loaders give, without their loops.
use good_mitm.Prelude.{
  ◌≡◌, ◌≢◌, refl, ◌∙◌, ap, Bool, true, false, Option, none, some, List, [], ◌∷◌, ◌++◌, append-nil,
  append_assoc, concat, map, All,
}
use good_mitm.Text.{Text}
use good_mitm.Env.{Env, Result, ok, err}
use good_mitm.Io.{pure, done}
use good_mitm.Io.Ensures.{bind_of_done}
use good_mitm.Rule.{Rule}
use good_mitm.RuleFile.{
  FileRule, Files, Loaded, from_rule, add_rules, parsed, load_from_file, load_files, load_from_dir,
  file_paths, appended,
}

module _ (E : Env) where
  -- The rules of a file and their patterns, one rule after the other.
  abbrev pub rules_of : List FileRule → List Rule
  rules_of file_rules = map (λ r. (from_rule E r).0) file_rules

  abbrev pub patterns_of : List FileRule → List Text
  patterns_of file_rules = concat (map (λ r. (from_rule E r).1) file_rules)

  add_rules_lem :
      (rules : List Rule) (patterns : List Text) (file_rules : List FileRule)
      → add_rules E (rules, patterns) file_rules
        ≡ (rules ++ rules_of file_rules, patterns ++ patterns_of file_rules)
  unfolding add_rules
  add_rules_lem rules patterns [] = rw (append-nil rules, append-nil patterns)
  add_rules_lem rules patterns (r ∷ more) =
      add_rules_lem (rules ++ ((from_rule E r).0 ∷ [])) (patterns ++ (from_rule E r).1) more
      ∙ simp append_assoc

  module _ (F : Files) where
    -- A file that can be opened and parsed gives its rules and their patterns, in order.
    load_from_file_lem :
        (path : F.FilePath) (file_rules : List FileRule)
        → F.open_file path ≡ ok (ok file_rules)
        → load_from_file E F path ≡ pure (ok (rules_of file_rules, patterns_of file_rules))
    unfolding load_from_file
    load_from_file_lem path file_rules opened =
        rw (opened, load_from_file, parsed, add_rules_lem [] [] file_rules)

    -- What a file adds to a folder: nothing if it failed.
    abbrev pub contribution : Result Loaded Text → Loaded
    contribution (err e) = ([], [])
    contribution (ok loaded) = loaded

    appended_lem :
        (loaded : Loaded) (r : Result Loaded Text)
        → appended E F loaded r ≡ (loaded.0 ++ (contribution r).0, loaded.1 ++ (contribution r).1)
    appended_lem (a, b) (err e) = rw (append-nil a, append-nil b)
    appended_lem (a, b) (ok (c, d)) = refl

    -- The paths are those of the entries that are known to be files, in order.
    pub data AreFiles : List (Option F.Entry) → List F.FilePath → Type 0 where
      no_entry : AreFiles [] []
      unreadable :
          (more : List (Option F.Entry)) (paths : List F.FilePath)
          → AreFiles more paths
          → AreFiles (none ∷ more) paths
      no_file :
          (f : F.Entry) (more : List (Option F.Entry)) (paths : List F.FilePath)
          → F.entry_is_file f ≢ some true
          → AreFiles more paths
          → AreFiles (some f ∷ more) paths
      file :
          (f : F.Entry) (more : List (Option F.Entry)) (paths : List F.FilePath)
          → F.entry_is_file f ≡ some true
          → AreFiles more paths
          → AreFiles (some f ∷ more) (F.entry_path f ∷ paths)

    file_paths-AreFiles :
        (entries : List (Option F.Entry)) (paths : List F.FilePath)
        → AreFiles entries paths
        → file_paths E F entries ≡ paths
    unfolding file_paths
    file_paths-AreFiles [] [] no_entry = refl
    file_paths-AreFiles [] (p ∷ paths) h = elim h [ ]
    file_paths-AreFiles (none ∷ more) paths (unreadable _ _ h) = file_paths-AreFiles more paths h
    file_paths-AreFiles (some f ∷ more) paths (no_file _ _ _ other h) =
        skipped (F.entry_is_file f) refl (file_paths-AreFiles more paths h)
      where
        skipped :
            (o : Option Bool)
            → F.entry_is_file f ≡ o
            → file_paths E F more ≡ paths
            → file_paths E F (some f ∷ more) ≡ paths
        skipped (some true) e rest = absurd (other e)
        skipped (some false) e rest = rw (e, file_paths) rest
        skipped none e rest = rw (e, file_paths) rest
    file_paths-AreFiles (some f ∷ more) (p ∷ paths) (file _ _ _ is h) =
        rw (is, file_paths) (ap (λ l. F.entry_path f ∷ l) (file_paths-AreFiles more paths h))

    module _ (result : F.FilePath → Result Loaded Text) where
      abbrev pub all_rules : List F.FilePath → List Rule
      all_rules paths = concat (map (λ p. (contribution (result p)).0) paths)

      abbrev pub all_patterns : List F.FilePath → List Text
      all_patterns paths = concat (map (λ p. (contribution (result p)).1) paths)

      load_files_lem :
          (loaded : Loaded) (paths : List F.FilePath)
          → All (λ p. (load_from_file E F p).1 ≡ done (result p)) paths
          → (load_files E F loaded paths).1
            ≡ done (loaded.0 ++ all_rules paths, loaded.1 ++ all_patterns paths)
      unfolding load_files
      load_files_lem (a, b) [] h = rw (append-nil a, append-nil b)
      load_files_lem (a, b) (p ∷ more) (here, h) =
          bind_of_done (load_from_file E F p) (λ r. load_files E F (appended E F (a, b) r) more)
            here
          ∙ load_files_lem (appended E F (a, b) (result p)) more h
          ∙ rw (appended_lem (a, b) (result p)) (simp append_assoc)

      -- If a folder can be listed, and the loading of none of its files panics, then loading it gives
      -- the rules and the patterns of its files, file after file in the order of the listing. An entry
      -- that cannot be read or is not known to be a file is none of its files, and a file that fails
      -- adds nothing.
      pub load_from_dir_lem :
          (path : F.FilePath) (entries : List (Option F.Entry)) (paths : List F.FilePath)
          → F.read_dir path ≡ some entries
          → AreFiles entries paths
          → All (λ p. (load_from_file E F p).1 ≡ done (result p)) paths
          → (load_from_dir E F path).1 ≡ done (ok (all_rules paths, all_patterns paths))
      unfolding load_from_dir
      load_from_dir_lem path entries paths listed are h =
          rw (listed, load_from_dir, file_paths-AreFiles entries paths are)
            (bind_of_done (load_files E F ([], []) paths) _ (load_files_lem ([], []) paths h))
