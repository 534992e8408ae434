-- ===== src/Import/Cookies/Consent.antt =====
-- What an import may return, and when it returns anything.
use weftgrid.Base.{
  ◌≡◌, refl, Bool, true, false, Option, none, some, List, [], ◌∷◌, Bytes, ◌⊎◌, inl, inr, Bool-cases,
  subst,
}
use weftgrid.Base.Results.{Result, ok, err, ◌>>=◌}
use weftgrid.Import.Dedupe.{ImportedCookie, dedupe, filter_domains}
use weftgrid.Import.Detect.{System, BrowserInfo}
use weftgrid.Import.Cookies.{
  CookieSkipReason, message, CookieImportResult, skipped, Readers, ensure_consent, classify_error,
  after_decrypt, readable_store, decrypt_store, decrypt_cookies, find_browser, scoped,
  import_cookies, unavailable,
}

-- Either no warning, or a reason with its text and no cookie.
abbrev pub IsPlain : CookieImportResult → Type 0
IsPlain r =
    ((r.skipped_reason ≡ none) × (r.warning ≡ none))
    ⊎ ((reason : CookieSkipReason) × (r.skipped_reason ≡ some reason)
        × (r.warning ≡ some (message reason))
        × (r.cookies ≡ []))

ok_inj :
    {a b : CookieImportResult} → ◌≡◌ {A = Result CookieImportResult Bytes} (ok a) (ok b) → a ≡ b
ok_inj h = cc

filter_nil : (f : Bytes → Bytes) (domains : List Bytes) → filter_domains f [] domains ≡ []
unfolding filter_domains
filter_nil f [] = refl
filter_nil f (d ∷ ds) = refl

module _ (readers : Readers) where
  skipped-IsPlain : (id : Bytes) (reason : CookieSkipReason) → IsPlain (skipped id reason)
  unfolding skipped
  skipped-IsPlain id reason = inr (reason, refl, refl, refl)

  after_decrypt-IsPlain :
      (id : Bytes) (r : Result (List ImportedCookie) Bytes) → IsPlain (after_decrypt readers id r)
  unfolding after_decrypt
  after_decrypt-IsPlain id (ok raw) = inl (refl, refl)
  after_decrypt-IsPlain id (err e) = skipped-IsPlain id (classify_error readers e)

  decrypt_store-IsPlain :
      (browser : BrowserInfo) (domains : List Bytes) (db : Option Bytes)
      → IsPlain (decrypt_store readers browser domains db)
  unfolding decrypt_store
  decrypt_store-IsPlain browser domains none = skipped-IsPlain browser.id unavailable
  decrypt_store-IsPlain browser domains (some db) = after_decrypt-IsPlain browser.id _

  decrypt_cookies-IsPlain :
      (browser : BrowserInfo) (domains : List Bytes)
      → IsPlain (decrypt_cookies readers browser domains)
  unfolding decrypt_cookies
  decrypt_cookies-IsPlain browser domains = elim (Bool-cases readers.live_enabled) [
    | inl e ↦ rw e (
        decrypt_store-IsPlain browser domains
          (readable_store readers browser.family browser.cookie_db))
    | inr e ↦ rw e (skipped-IsPlain browser.id unavailable)
  ]

  scoped-IsPlain :
      (domains : List Bytes) (r : CookieImportResult)
      → IsPlain r
      → IsPlain (scoped readers domains r)
  unfolding scoped dedupe
  scoped-IsPlain domains r (inl h) = inl h
  scoped-IsPlain domains r (inr (reason, a, b, c)) =
      inr (reason, a, b, rw c (filter_nil readers.to_lowercase domains))

  browser-IsPlain :
      (b : Result BrowserInfo Bytes) (domains : List Bytes) (r : CookieImportResult)
      → (b >>= λ browser. ok (scoped readers domains (decrypt_cookies readers browser domains)))
        ≡ ok r
      → IsPlain r
  browser-IsPlain (ok browser) domains r h =
      subst IsPlain (ok_inj h) (scoped-IsPlain domains _ (decrypt_cookies-IsPlain browser domains))
  browser-IsPlain (err e) domains r h = cc

  -- An import of cookies that returns has the user's consent, and its result is plain: where the
  -- cookies were skipped, for whatever reason, there are none, and the warning is the reason's text;
  -- else there is no warning.
  pub import_cookies-IsPlain :
      (sys : System) (consent : Bool) (id : Bytes) (domains : List Bytes) (r : CookieImportResult)
      → import_cookies readers sys consent id domains ≡ ok r
      → (consent ≡ true) × IsPlain r
  unfolding import_cookies ensure_consent
  import_cookies-IsPlain sys true id domains r h =
      (refl, browser-IsPlain (find_browser readers sys id) domains r h)
  import_cookies-IsPlain sys false id domains r h = cc
