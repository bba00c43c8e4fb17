-- ===== src/Update/Check.antt =====
-- `Client.Check` of internal/update/check.go, on the list of releases that the server sent
pub mod Newest
use virmill.Prelude.{
  ℕ, String, Bool, true, false, not, ◌&&◌, ◌||◌, Option, none, some, List, [], ◌∷◌, map,
  if◌then◌else◌,
}
use virmill.Domain.Error.{Result, ok, err, plain}
use virmill.Update.Version.{Version, parse_version, prerelease, less}

pub record Asset : Type 0 where
  pub name : String
  pub url : String
  pub size : ℕ
  pub digest : String

-- A release of the server's list
pub record Listed : Type 0 where
  pub tag : String
  pub draft : Bool
  pub prerelease : Bool
  pub page : String
  pub published : ℕ
  pub assets : List Asset

-- A release that is offered; its version is the value that the text shows.
pub record Release : Type 0 where
  pub version : Version
  pub tag : String
  pub prerelease : Bool
  pub page : String
  pub published : ℕ
  pub assets : List Asset

-- The newest so far is the version of the release that is kept.
unfoldable pub is_skipped : Version → Version → Bool → Option Release → Bool
is_skipped cur v draft latest =
    draft
    || (prerelease v && not (prerelease cur))
    || not (less cur v)
    || elim latest [ none ↦ false | some best ↦ not (less best.version v) ]

unfoldable pub released : Version → Listed → Release
released v r = record {
  version = v;
  tag = r.tag;
  prerelease = r.prerelease;
  page = r.page;
  published = r.published;
  assets = r.assets;
}

-- The body of the loop
unfoldable pub consider : Version → Listed → Option Release → Option Release
unfolding is_skipped released
consider cur r latest = elim (parse_version r.tag) [
  | none ↦ latest
  | some v ↦ if is_skipped cur v r.draft latest then latest else some (released v r)
]

-- The loop over the releases
unfoldable pub newest : Version → List Listed → Option Release → Option Release
newest cur [] latest = latest
newest cur (r ∷ rs) latest = newest cur rs (consider cur r latest)

-- `Check`, with the answer of the server
unfoldable pub check : String → Result (List Listed) → Result (Option Release)
unfolding newest
check current answer = elim (parse_version current) [
  | none ↦ err plain
  | some cur ↦ elim answer [ err e ↦ err e | ok list ↦ ok (newest cur list none) ]
]
