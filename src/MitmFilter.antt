-- ===== src/MitmFilter.antt =====
-- `MitmFilter` of crates/core/src/handler.rs
pub mod Covers
use good_mitm.Prelude.{Bool, true, false, ◌||◌, List, [], ◌∷◌, if◌then◌else◌, unwrap_or}
use good_mitm.Text.{Text}
use good_mitm.Env.{Env}
use good_mitm.Io.{Request}

-- The patterns, as `WildMatch::new` is given them.
pub record MitmFilter : Type 0 where
  pub filters : List Text

unfoldable pub new : List Text → MitmFilter
new filters = record { filters = filters }

module _ (E : Env) where
  matches_some : List Text → Text → Bool
  matches_some [] host = false
  matches_some (m ∷ more) host = if E.wild_matches m host then true else matches_some more host

  unfoldable pub filter : MitmFilter → Request E → Bool
  unfolding matches_some
  filter self req = matches_some self.filters (unwrap_or [] (E.uri_host req.uri))
