-- ===== src/RuleFile.antt =====
-- src/file/single_multi.rs, src/file/frule.rs and src/file/mod.rs
pub mod Loading
pub mod Fresh
pub mod Intercepted
use good_mitm.Prelude.{
  ℕ, Bool, true, false, Option, none, some, List, [], ◌∷◌, ◌++◌, map, filter_map, if◌then◌else◌,
}
use good_mitm.Text.{Text, codes}
use good_mitm.Env.{Env, Result, ok, err}
use good_mitm.Io.{Io, error, pure, tell, unwrap, ◌>>=◌, ◌>>◌}
use good_mitm.Filter.{Filter, init, mitm_filtter_pattern}
use good_mitm.Rule
use good_mitm.Rule.{Rule, Action}

pub data SingleOrMulti (T : Type 0) : Type 0 where
  single : T → SingleOrMulti T
  multi : List T → SingleOrMulti T

unfoldable pub into_vec : {T : Type 0} → SingleOrMulti T → List T
into_vec (single v) = v ∷ []
into_vec (multi mv) = mv

-- A rule as a file holds it.
pub record FileRule : Type 0 where
  pub name : Text
  pub mitm_list : Option (SingleOrMulti Text)
  pub filters : SingleOrMulti Filter
  pub actions : SingleOrMulti Action

-- The file system and the YAML parser.
pub record Files : Type 1 where
  pub FilePath : Type 0
  pub Entry : Type 0
  -- `fs::metadata` and `is_dir`
  pub is_dir : FilePath → Option Bool
  pub path_to_str : FilePath → Option Text
  -- `File::open` and what `serde_yaml` makes of the file; an error by its text
  pub open_file : FilePath → Result (Result (List FileRule) Text) Text
  pub read_dir : FilePath → Option (List (Option Entry))
  pub entry_is_file : Entry → Option Bool
  pub entry_path : Entry → FilePath

-- The rules and the patterns of hosts to intercept.
abbrev pub Loaded : Type 0
Loaded = List Rule × List Text

abbrev listed : Option (SingleOrMulti Text) → List Text
listed none = []
listed (some s) = into_vec s

module _ (E : Env) where
  -- `From<Rule> for (rule::Rule, Vec<String>)`
  unfoldable pub from_rule : FileRule → Rule × List Text
  unfolding into_vec
  from_rule rule =
      let filters = map (init E) (into_vec rule.filters) in
      (
        record { filters = filters; actions = into_vec rule.actions; url = none },
        filter_map mitm_filtter_pattern filters ++ listed rule.mitm_list,
      )

  -- The fold over the rules of a file.
  unfoldable pub add_rules : Loaded → List FileRule → Loaded
  unfolding from_rule
  add_rules loaded [] = loaded
  add_rules (rules, filters) (r ∷ more) =
      add_rules (rules ++ ((from_rule r).0 ∷ []), filters ++ (from_rule r).1) more

  module _ (F : Files) where
    -- What a reader's result gives; the parser's error is logged.
    parsed : F.FilePath → Result (List FileRule) Text → Io E (Result Loaded Text)
    parsed path (ok rules) = pure (ok (add_rules ([], []) rules))
    parsed path (err e) = do
      name ← unwrap (F.path_to_str path)
      tell (error (codes "load rule (" ++ (name ++ (codes ") failed: " ++ e))))
      pure (err e)

    unfoldable pub load_from_file : F.FilePath → Io E (Result Loaded Text)
    unfolding parsed add_rules
    load_from_file path = elim (F.open_file path) [
      | err e ↦ pure (err e)
      | ok content ↦ parsed path content
    ]

    abbrev appended : Loaded → Result Loaded Text → Loaded
    appended loaded (err e) = loaded
    appended (rules, filters) (ok (more_rules, more_filters)) =
        (rules ++ more_rules, filters ++ more_filters)

    -- The paths of the entries that are files.
    unfoldable pub file_paths : List (Option F.Entry) → List F.FilePath
    file_paths [] = []
    file_paths (none ∷ more) = file_paths more
    file_paths (some f ∷ more) = elim (F.entry_is_file f) [
      | some true ↦ F.entry_path f ∷ file_paths more
      | _ ↦ file_paths more
    ]

    unfoldable pub load_files : Loaded → List F.FilePath → Io E Loaded
    unfolding load_from_file
    load_files loaded [] = pure loaded
    load_files loaded (path ∷ more) = do
      result ← load_from_file path
      load_files (appended loaded result) more

    unfoldable pub load_from_dir : F.FilePath → Io E (Result Loaded Text)
    unfolding load_files file_paths
    load_from_dir path = do
      dir ← unwrap (F.read_dir path)
      loaded ← load_files ([], []) (file_paths dir)
      pure (ok loaded)

    unfoldable pub load_rules_amd_mitm_filters : F.FilePath → Io E (Result Loaded Text)
    unfolding load_from_file load_from_dir
    load_rules_amd_mitm_filters path = do
      dir ← unwrap (F.is_dir path)
      if dir then load_from_dir path else load_from_file path
