-- ===== src/Import/Cookies.antt =====
-- src-tauri/src/import/cookies.rs, consent.rs and commands.rs: the import of one browser's data, behind
-- the consent of the user. The decryption by rookie, the reading of databases and `str::to_lowercase`
-- are arguments.
pub mod Consent
use weftgrid.Base.{
  ℕ, ◌≡◌, Bool, true, false, not, Option, none, some, List, [], ◌∷◌, ◌++◌, if◌then◌else◌, Bytes,
  ◌||◌,
}
use weftgrid.Base.Int.{ℤ}
use weftgrid.Base.Results.{Result, ok, err, ◌>>=◌}
use weftgrid.Base.Text.{codes, contains, equal}
use weftgrid.Import.Catalog.{BrowserFamily, chromium, firefox, webkit}
use weftgrid.Import.Dedupe.{ImportedCookie, dedupe, filter_domains}
use weftgrid.Import.Detect.{System, BrowserInfo, detect_installed}

pub data CookieSkipReason : Type 0 where
  app_bound keyring_locked unavailable decrypt_failed : CookieSkipReason

unfoldable pub message : CookieSkipReason → Bytes
message app_bound =
    codes "Cookies use Chrome v20 app-bound encryption and were skipped (not bypassed)."
message keyring_locked = codes "OS keyring is locked or unavailable; unlock it and retry."
message unavailable = codes "Cookie store not found or unreadable."
message decrypt_failed = codes "Could not decrypt cookies."

pub record CookieImportResult : Type 0 where
  pub browser_id : Bytes
  pub cookies : List ImportedCookie
  pub warning : Option Bytes
  pub skipped_reason : Option CookieSkipReason

abbrev pub imported : Bytes → List ImportedCookie → CookieImportResult
imported browser_id cookies = record {
  browser_id = browser_id;
  cookies = cookies;
  warning = none;
  skipped_reason = none;
}

unfoldable pub skipped : Bytes → CookieSkipReason → CookieImportResult
unfolding message
skipped browser_id reason = record {
  browser_id = browser_id;
  cookies = [];
  warning = some (message reason);
  skipped_reason = some reason;
}

pub record HistoryEntry : Type 0 where
  pub url : Bytes
  pub title : Bytes
  pub visit_count : ℤ
  pub last_visit_ms : ℤ

-- Whether the variable WEFTGRID_IMPORT_LIVE is set, `rookie::any_browser`, `read_history` and
-- `str::to_lowercase`.
pub record Readers : Type 0 where
  pub live_enabled : Bool
  pub any_browser : Bytes → Option (List Bytes) → Option Bytes → Result (List ImportedCookie) Bytes
  pub read_history : Bytes → BrowserFamily → Result (List HistoryEntry) Bytes
  pub to_lowercase : Bytes → Bytes

unfoldable pub any_of : Bytes → List Bytes → Bool
unfolding contains
any_of m [] = false
any_of m (w ∷ ws) = contains w m || any_of m ws

abbrev app_bound_words : List Bytes
app_bound_words = codes "appbound" ∷ codes "app-bound" ∷ codes "app_bound" ∷ codes "v20" ∷ []

abbrev keyring_words : List Bytes
keyring_words =
    codes "keyring"
    ∷ codes "keychain"
    ∷ codes "kwallet"
    ∷ codes "libsecret"
    ∷ codes "locked"
    ∷ codes "secret service"
    ∷ []

abbrev unavailable_words : List Bytes
unavailable_words =
    codes "can't find" ∷ codes "not found" ∷ codes "no such file" ∷ codes "no cookies" ∷ []

-- `m` is the message in lower case.
unfoldable pub classify : Bytes → CookieSkipReason
unfolding any_of
classify m =
    if any_of m app_bound_words
    then app_bound
    else if any_of m keyring_words
    then keyring_locked
    else if any_of m unavailable_words
    then unavailable
    else decrypt_failed

unfoldable pub ensure_consent : Bool → Result (Unit {0}) Bytes
ensure_consent true = ok tt
ensure_consent false =
    err (codes "Browser import requires consent. Enable it in Settings before importing.")

abbrev domain_arg : List Bytes → Option (List Bytes)
domain_arg [] = none
domain_arg (d ∷ ds) = some (d ∷ ds)

module _ (readers : Readers) where
  unfoldable pub classify_error : Bytes → CookieSkipReason
  unfolding classify
  classify_error msg = classify (readers.to_lowercase msg)

  unfoldable pub after_decrypt : Bytes → Result (List ImportedCookie) Bytes → CookieImportResult
  unfolding classify_error skipped
  after_decrypt id (ok raw) = imported id raw
  after_decrypt id (err e) = skipped id (classify_error e)

  -- The store's path, if the family is read at all.
  unfoldable pub readable_store : BrowserFamily → Option Bytes → Option Bytes
  readable_store webkit db = none
  readable_store chromium db = db
  readable_store firefox db = db

  unfoldable pub decrypt_store : BrowserInfo → List Bytes → Option Bytes → CookieImportResult
  unfolding after_decrypt skipped
  decrypt_store browser domains none = skipped browser.id unavailable
  decrypt_store browser domains (some db) =
      after_decrypt browser.id (readers.any_browser db (domain_arg domains) browser.key_store)

  -- `import_cookies` of cookies.rs
  unfoldable pub decrypt_cookies : BrowserInfo → List Bytes → CookieImportResult
  unfolding decrypt_store readable_store skipped
  decrypt_cookies browser domains =
      if readers.live_enabled
      then decrypt_store browser domains (readable_store browser.family browser.cookie_db)
      else skipped browser.id unavailable

  unfoldable pub browser_in : Bytes → List BrowserInfo → Result BrowserInfo Bytes
  browser_in id [] = err (codes "browser '" ++ id ++ codes "' is not installed")
  browser_in id (b ∷ bs) = if equal b.id id then ok b else browser_in id bs

  unfoldable pub find_browser : System → Bytes → Result BrowserInfo Bytes
  unfolding browser_in detect_installed
  find_browser sys id = browser_in id (detect_installed sys)

  unfoldable pub scoped : List Bytes → CookieImportResult → CookieImportResult
  unfolding dedupe filter_domains
  scoped domains r = record r {
    cookies = filter_domains readers.to_lowercase (dedupe r.cookies) domains;
  }

  -- The command, with the persisted consent.
  unfoldable pub import_cookies :
      System → Bool → Bytes → List Bytes → Result CookieImportResult Bytes
  unfolding ensure_consent find_browser scoped decrypt_cookies
  import_cookies sys consent id domains = ensure_consent consent >>= λ _.
      find_browser sys id >>= λ browser. ok (scoped domains (decrypt_cookies browser domains))

  unfoldable pub read_store :
      Bytes → BrowserFamily → Option Bytes → Result (List HistoryEntry) Bytes
  read_store id family none = err (codes "no history database found for '" ++ id ++ codes "'")
  read_store id family (some db) = readers.read_history db family

  unfoldable pub import_history : System → Bool → Bytes → Result (List HistoryEntry) Bytes
  unfolding ensure_consent find_browser read_store
  import_history sys consent id = ensure_consent consent >>= λ _.
      find_browser sys id >>= λ browser. read_store id browser.family browser.history_db
