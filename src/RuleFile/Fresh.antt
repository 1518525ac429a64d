-- ===== src/RuleFile/Fresh.antt =====
-- The rules that the loaders give are fit for the handler.
use good_mitm.Prelude.{
  ◌≡◌, refl, true, false, none, List, [], ◌∷◌, ◌++◌, map, All, All-append, if◌then◌else◌,
}
use good_mitm.Text.{Text}
use good_mitm.Env.{Env, Result, ok, err}
use good_mitm.Io.{unwrap}
use good_mitm.Io.Ensures.{Ensures, Ensures-bind, Ensures-at}
use good_mitm.Filter.{Filter, init}
use good_mitm.Rule.{Rule}
use good_mitm.RuleFile.{
  FileRule, Files, Loaded, from_rule, into_vec, add_rules, parsed, load_from_file, load_files,
  load_from_dir, file_paths, load_rules_amd_mitm_filters, appended,
}

module _ (E : Env) where
  -- The URL of the rule is not set, and its filters have been initialised.
  abbrev pub IsFresh : Rule → Type 0
  IsFresh rule = (rule.url ≡ none) × ((fs : List Filter) × (rule.filters ≡ map (init E) fs))

  abbrev pub IfOk : Result Loaded Text → Type 0
  IfOk (err e) = Unit
  IfOk (ok loaded) = All IsFresh loaded.0

  add_rules-IsFresh :
      (loaded : Loaded) (file_rules : List FileRule)
      → All IsFresh loaded.0
      → All IsFresh (add_rules E loaded file_rules).0
  unfolding add_rules
  add_rules-IsFresh loaded [] h = h
  add_rules-IsFresh (rules, patterns) (r ∷ more) h =
      add_rules-IsFresh (rules ++ ((from_rule E r).0 ∷ []), patterns ++ (from_rule E r).1) more
        (All-append IsFresh rules ((from_rule E r).0 ∷ []) h
          ((refl, (into_vec r.filters, refl)), tt))

  module _ (F : Files) where
    parsed-IfOk :
        (path : F.FilePath) (r : Result (List FileRule) Text) → Ensures IfOk (parsed E F path r)
    unfolding parsed
    parsed-IfOk path (ok rules) = add_rules-IsFresh ([], []) rules tt
    parsed-IfOk path (err e) = Ensures-bind IfOk (unwrap (F.path_to_str path)) _ (λ _ _. tt)

    opened-IfOk :
        (path : F.FilePath) (r : Result (Result (List FileRule) Text) Text)
        → F.open_file path ≡ r
        → Ensures IfOk (load_from_file E F path)
    unfolding load_from_file
    opened-IfOk path (ok content) e = rw (e, load_from_file) (parsed-IfOk path content)
    opened-IfOk path (err x) e = rw (e, load_from_file) tt

    load_from_file-IfOk : (path : F.FilePath) → Ensures IfOk (load_from_file E F path)
    load_from_file-IfOk path = opened-IfOk path (F.open_file path) refl

    appended-IsFresh :
        (loaded : Loaded) (r : Result Loaded Text)
        → All IsFresh loaded.0
        → IfOk r
        → All IsFresh (appended E F loaded r).0
    appended-IsFresh (a, b) (err e) h k = h
    appended-IsFresh (a, b) (ok (c, d)) h k = All-append IsFresh a c h k

    load_files-IsFresh :
        (loaded : Loaded) (paths : List F.FilePath)
        → All IsFresh loaded.0
        → Ensures (λ l. All IsFresh l.0) (load_files E F loaded paths)
    unfolding load_files
    load_files-IsFresh loaded [] h = h
    load_files-IsFresh loaded (p ∷ more) h = Ensures-bind _ (load_from_file E F p) _ (λ r made.
        load_files-IsFresh (appended E F loaded r) more (
          appended-IsFresh loaded r h
            (Ensures-at IfOk (load_from_file E F p) made (load_from_file-IfOk p))))

    load_from_dir-IfOk : (path : F.FilePath) → Ensures IfOk (load_from_dir E F path)
    unfolding load_from_dir
    load_from_dir-IfOk path = Ensures-bind IfOk (unwrap (F.read_dir path)) _ (λ dir _.
        Ensures-bind IfOk (load_files E F ([], []) (file_paths E F dir)) _ (λ l made.
          Ensures-at _ (load_files E F ([], []) (file_paths E F dir)) made
            (load_files-IsFresh ([], []) (file_paths E F dir) tt)))

    -- Whatever stands in the file or the folder, if loading it gives rules, every one of them
    -- has no URL yet and initialised filters.
    pub load_rules-IsFresh :
        (path : F.FilePath) → Ensures IfOk (load_rules_amd_mitm_filters E F path)
    unfolding load_rules_amd_mitm_filters
    load_rules-IsFresh path = Ensures-bind IfOk (unwrap (F.is_dir path)) _ (λ dir _.
        elim dir
          as (λ b. Ensures IfOk (if b then load_from_dir E F path else load_from_file E F path)) [
            | true ↦ load_from_dir-IfOk path
            | false ↦ load_from_file-IfOk path
          ])
