-- ===== src/Update/Tests.antt =====
-- The theorems on versions and releases, on a list of three releases
use virmill.Prelude.{ℕ, String, Bool, true, false, none, some, List, [], ◌∷◌, ◌≡◌, refl, arith}
use virmill.Domain.Error.{ok}
use virmill.Prelude.Digits.{decimal, print_decimal}
use virmill.Update.Version.Printed.{parse_version-show_version}
use virmill.Update.Version.{show_version, Version, parse_version, less, prerelease}
use virmill.Update.Check.{Listed, Release, check, consider}
use virmill.Update.Check.Newest.{Offered, offers, covers, check-Offered, check-covers}

abbrev version : ℕ → ℕ → ℕ → Version
version minor patch beta = record { major = 1; minor = minor; patch = patch; beta = beta }

abbrev listed : String → Bool → Listed
listed tag draft = record {
  tag = tag;
  draft = draft;
  prerelease = false;
  page = "";
  published = 0;
  assets = [];
}

abbrev releases : List Listed
releases = listed "v1.3.0-beta.2" false ∷ listed "v1.2.0" false ∷ listed "v1.9.0" true ∷ []

abbrev newest_release : Release
newest_release = record {
  version = version 2 0 0;
  tag = "v1.2.0";
  prerelease = false;
  page = "";
  published = 0;
  assets = [];
}

parse_beta : parse_version "v1.3.0-beta.2" ≡ some (version 3 0 2)
unfolding parse_version decimal
parse_beta = refl

parse_padded : parse_version "1.03.0" ≡ none
unfolding parse_version decimal
parse_padded = refl

current : parse_version "1.1.7" ≡ some (version 1 7 0)
unfolding parse_version decimal
current = refl

checked : check "1.1.7" (ok releases) ≡ ok (some newest_release)
unfolding check parse_version less prerelease decimal consider
checked = refl

check-Offered_example : Offered (version 1 7 0) releases newest_release
check-Offered_example =
    check-Offered "1.1.7" (version 1 7 0) releases (some newest_release) current checked
      newest_release refl

check-covers_example : covers (some newest_release) (version 2 0 0) ≡ true
unfolding parse_version offers less prerelease decimal
check-covers_example =
    check-covers "1.1.7" (version 1 7 0) releases (some newest_release) current checked 1
      (listed "v1.2.0" false) (version 2 0 0) refl refl refl

parse_version-show_version_example : parse_version "1.3.0-beta.2" ≡ some (version 3 0 2)
unfolding show_version print_decimal
parse_version-show_version_example =
    parse_version-show_version (version 3 0 2) "1.3.0-beta.2"
      (record { major = omega arith; minor = omega arith; patch = omega arith; beta = omega arith })
      refl
