-- ===== src/Import/Catalog.antt =====
-- src-tauri/src/import/catalog.rs: the table of browsers.
use weftgrid.Base.{ℕ, List, [], ◌∷◌, Bytes}
use weftgrid.Base.Text.{codes}

pub data BrowserFamily : Type 0 where
  chromium firefox webkit : BrowserFamily

pub record BrowserDescriptor : Type 0 where
  pub id : Bytes
  pub display_name : Bytes
  pub family : BrowserFamily
  pub tier : ℕ
  pub win_root : Bytes
  pub linux_root : Bytes
  pub mac_root : Bytes

unfoldable pub d : Bytes → Bytes → BrowserFamily → ℕ → Bytes → Bytes → Bytes → BrowserDescriptor
d id display_name family tier win_root linux_root mac_root = record {
  id = id;
  display_name = display_name;
  family = family;
  tier = tier;
  win_root = win_root;
  linux_root = linux_root;
  mac_root = mac_root;
}

unfoldable pub catalog : List BrowserDescriptor
unfolding d
catalog =
    d (codes "chrome") (codes "Google Chrome") chromium 1 (codes "Google/Chrome/User Data")
      (codes ".config/google-chrome") (codes "Library/Application Support/Google/Chrome")
    ∷ d (codes "firefox") (codes "Firefox") firefox 1 (codes "Mozilla/Firefox")
        (codes ".mozilla/firefox") (codes "Library/Application Support/Firefox")
    ∷ d (codes "edge") (codes "Microsoft Edge") chromium 1 (codes "Microsoft/Edge/User Data")
        (codes ".config/microsoft-edge") (codes "Library/Application Support/Microsoft Edge")
    ∷ d (codes "brave") (codes "Brave") chromium 1 (codes "BraveSoftware/Brave-Browser/User Data")
        (codes ".config/BraveSoftware/Brave-Browser")
        (codes "Library/Application Support/BraveSoftware/Brave-Browser")
    ∷ d (codes "arc") (codes "Arc") chromium 1 (codes "Arc/User Data") (codes ".config/arc")
        (codes "Library/Application Support/Arc/User Data")
    ∷ d (codes "safari") (codes "Safari") webkit 1 (codes "") (codes "") (codes "Library/Safari")
    ∷ d (codes "vivaldi") (codes "Vivaldi") chromium 2 (codes "Vivaldi/User Data")
        (codes ".config/vivaldi") (codes "Library/Application Support/Vivaldi")
    ∷ d (codes "opera") (codes "Opera") chromium 2 (codes "Opera Software/Opera Stable")
        (codes ".config/opera") (codes "Library/Application Support/com.operasoftware.Opera")
    ∷ d (codes "opera_gx") (codes "Opera GX") chromium 2 (codes "Opera Software/Opera GX Stable")
        (codes ".config/opera-gx") (codes "Library/Application Support/com.operasoftware.OperaGX")
    ∷ d (codes "zen") (codes "Zen Browser") firefox 2 (codes "zen") (codes ".zen")
        (codes "Library/Application Support/zen")
    ∷ d (codes "orion") (codes "Orion") webkit 2 (codes "") (codes "")
        (codes "Library/Application Support/Orion")
    ∷ d (codes "chromium") (codes "Chromium") chromium 3 (codes "Chromium/User Data")
        (codes ".config/chromium") (codes "Library/Application Support/Chromium")
    ∷ d (codes "librewolf") (codes "LibreWolf") firefox 3 (codes "librewolf") (codes ".librewolf")
        (codes "Library/Application Support/librewolf")
    ∷ d (codes "floorp") (codes "Floorp") firefox 3 (codes "Floorp") (codes ".floorp")
        (codes "Library/Application Support/Floorp")
    ∷ d (codes "waterfox") (codes "Waterfox") firefox 3 (codes "Waterfox") (codes ".waterfox")
        (codes "Library/Application Support/Waterfox")
    ∷ d (codes "dia") (codes "Dia") chromium 3 (codes "Dia/User Data") (codes ".config/dia")
        (codes "Library/Application Support/Dia/User Data")
    ∷ d (codes "comet") (codes "Perplexity Comet") chromium 3 (codes "Perplexity/Comet/User Data")
        (codes ".config/comet") (codes "Library/Application Support/Comet")
    ∷ d (codes "sigmaos") (codes "SigmaOS") chromium 3 (codes "SigmaOS/User Data")
        (codes ".config/sigmaos") (codes "Library/Application Support/SigmaOS")
    ∷ d (codes "sidekick") (codes "Sidekick") chromium 3 (codes "Sidekick/User Data")
        (codes ".config/sidekick") (codes "Library/Application Support/Sidekick")
    ∷ d (codes "helium") (codes "Helium") chromium 3 (codes "Helium/User Data")
        (codes ".config/helium") (codes "Library/Application Support/Helium")
    ∷ d (codes "atlas") (codes "Atlas") chromium 3 (codes "Atlas/User Data") (codes ".config/atlas")
        (codes "Library/Application Support/Atlas")
    ∷ d (codes "ladybird") (codes "Ladybird") webkit 3 (codes "") (codes "")
        (codes "Library/Application Support/Ladybird")
    ∷ []
