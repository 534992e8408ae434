-- ===== src/Tests/Import.antt =====
-- Tests of the import track.
use mathlib.Core.List.{Perm}
use weftgrid.Base.{
  ℕ, ◌≡◌, refl, Bool, true, false, Option, none, some, List, [], ◌∷◌, ◌++◌, Bytes, map, length,
  if◌then◌else◌, ◌==◌, arith,
}
use weftgrid.Base.Results.{ok}
use weftgrid.Base.Text.{codes}
use weftgrid.Import.Catalog.{catalog}
use weftgrid.Import.Dedupe.{ImportedCookie, Key, dedupe, dedupe_key, key_discrete}
use weftgrid.Import.Dedupe.Survivors.{best, find_key, IsDistinct, find_key-dedupe}
use weftgrid.Import.Detect.{System, detect_in, firefox_default_profile, detect_installed}
use weftgrid.Import.Detect.Order.{IsListed, entry_of, row_of, rows_found, detect_in-IsListed}
use weftgrid.Import.Cookies.{
  Readers, CookieImportResult, classify_error, keyring_locked, import_cookies, unavailable, message,
}
use weftgrid.Import.Cookies.Consent.{IsPlain, import_cookies-IsPlain}

abbrev cookie : Bytes → Option ℕ → ImportedCookie
cookie value expires = record {
  name = codes "sid";
  domain = codes "a.test";
  path = codes "/";
  value = value;
  secure = true;
  http_only = true;
  same_site = 0;
  expires = expires;
}

abbrev cookies : List ImportedCookie
cookies =
    cookie (codes "1") none
    ∷ cookie (codes "2") (some 9)
    ∷ cookie (codes "3") (some 9)
    ∷ record (cookie (codes "4") none) { domain = codes "b.test" }
    ∷ []

dedupe_test :
    dedupe cookies
    ≡ cookie (codes "2") (some 9)
      ∷ record (cookie (codes "4") none) { domain = codes "b.test" }
      ∷ []
unfolding dedupe key_discrete weftgrid.Base.ℕ_discrete weftgrid.Base.Maps.lookup
    weftgrid.Base.Maps.insert
dedupe_test = refl

abbrev sid : Key
sid = (codes "sid", codes "a.test", codes "/")

find_key-dedupe_example :
    (find_key sid (dedupe cookies) ≡ best sid none cookies)
    × IsDistinct (map dedupe_key (dedupe cookies))
find_key-dedupe_example = find_key-dedupe sid cookies

catalog-length_test : length catalog ≡ 22
unfolding catalog
catalog-length_test = refl

abbrev profiles : Bytes
profiles =
    codes "[Profile0]"
    ++ 10 ∷ []
    ++ codes "Default=1"
    ++ 10 ∷ []
    ++ codes "[Install4F]"
    ++ 10 ∷ []
    ++ codes "Default=Profiles/x"
    ++ 10 ∷ []

-- Every path is there.
abbrev machine : System
machine = record {
  exists = λ _. true;
  read_to_string = λ _. some profiles;
  home = some (codes "/home/u");
  trim = λ t. t;
}

profile_test : firefox_default_profile machine (codes "/r") ≡ some (codes "/r/Profiles/x")
unfolding firefox_default_profile
profile_test = refl

detect_in-IsListed_example :
    IsListed (detect_in machine (λ d. some d.linux_root))
    × Perm
        (map entry_of (detect_in machine (λ d. some d.linux_root)))
        (map row_of (rows_found (λ d. some d.linux_root) catalog))
detect_in-IsListed_example = detect_in-IsListed machine (λ d. some d.linux_root)

abbrev readers : Readers
readers = record {
  live_enabled = false;
  any_browser = λ _ _ _. ok cookies;
  read_history = λ _ _. ok [];
  to_lowercase = λ t. t;
}

classify_test : classify_error readers (codes "the keyring is locked") ≡ keyring_locked
unfolding classify_error
classify_test = refl

abbrev skipped_result : CookieImportResult
skipped_result = record {
  browser_id = codes "chrome";
  cookies = [];
  warning = some (message unavailable);
  skipped_reason = some unavailable;
}

import_cookies-IsPlain_example : (true ≡ true) × IsPlain skipped_result
unfolding import_cookies detect_installed catalog weftgrid.Config.Store.text_le
import_cookies-IsPlain_example =
    import_cookies-IsPlain readers machine true (codes "chrome") [] skipped_result refl
