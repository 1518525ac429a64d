-- ===== src/MitmFilter/Covers.antt =====
-- Which requests to connect are intercepted.
use good_mitm.Prelude.{
  ◌≡◌, refl, sym, ap, ◌∙◌, ◌↔◌, true, Bool-cases, inl, inr, some, Option-cases, List, [], ◌∷◌,
  filter_map, unwrap_or,
}
use mathlib.Core.List.{Memᴰ}
use good_mitm.Text.{Text}
use good_mitm.Env.{Env}
use good_mitm.Io.{Request}
use good_mitm.Filter.{Filter, mitm_filtter_pattern}
use good_mitm.MitmFilter.{new, filter, matches_some}

module _ (E : Env) where
  matches_some_of_mem :
      (patterns : List Text) (p host : Text)
      → Memᴰ p patterns
      → E.wild_matches p host ≡ true
      → matches_some E patterns host ≡ true
  unfolding matches_some
  matches_some_of_mem [] p host m h = elim m [ ]
  matches_some_of_mem (q ∷ more) p host (Memᴰ.head e) h =
      rw (ap (λ x. E.wild_matches x host) (sym e) ∙ h)
  matches_some_of_mem (q ∷ more) p host (Memᴰ.tail m) h =
      elim (Bool-cases (E.wild_matches q host)) [
        | inl hit ↦ rw hit
        | inr miss ↦ rw miss (matches_some_of_mem more p host m h)
      ]

  mem_of_matches_some :
      (patterns : List Text) (host : Text)
      → matches_some E patterns host ≡ true
      → (p : Text) × Memᴰ p patterns × (E.wild_matches p host ≡ true)
  unfolding matches_some
  mem_of_matches_some [] host h = cc
  mem_of_matches_some (q ∷ more) host h = elim (Bool-cases (E.wild_matches q host)) [
    | inl hit ↦ (q, Memᴰ.head refl, hit)
    | inr miss ↦
        let (p, m, e) = mem_of_matches_some more host (rw (miss, matches_some) at h) in
        (p, Memᴰ.tail m, e)
  ]

  -- One of the patterns matches the host of the request.
  abbrev pub Covers : List Text → Request E → Type 0
  Covers patterns req =
      (p : Text) × Memᴰ p patterns × (E.wild_matches p (unwrap_or [] (E.uri_host req.uri)) ≡ true)

  -- The connection of a request is intercepted exactly if one of the patterns matches its host.
  pub filter_iff :
      (patterns : List Text) (req : Request E)
      → (filter E (new patterns) req ≡ true) ↔ Covers patterns req
  unfolding filter new
  filter_iff patterns req = (
    mem_of_matches_some patterns (unwrap_or [] (E.uri_host req.uri)),
    λ (p, m, h). matches_some_of_mem patterns p (unwrap_or [] (E.uri_host req.uri)) m h,
  )

pub mem-filter_map :
    (fs : List Filter) (f : Filter) (p : Text)
    → Memᴰ f fs
    → mitm_filtter_pattern f ≡ some p
    → Memᴰ p (filter_map mitm_filtter_pattern fs)
mem-filter_map [] f p m h = elim m [ ]
mem-filter_map (g ∷ fs) f p (Memᴰ.head e) h =
    rw (ap mitm_filtter_pattern (sym e) ∙ h, filter_map) (Memᴰ.head refl)
mem-filter_map (g ∷ fs) f p (Memᴰ.tail m) h = elim (Option-cases (mitm_filtter_pattern g)) [
  | inl absent ↦ rw (absent, filter_map) (mem-filter_map fs f p m h)
  | inr (q, present) ↦ rw (present, filter_map) (Memᴰ.tail (mem-filter_map fs f p m h))
]
