-- ===== src/Browser/Windows.antt =====
-- src-tauri/src/browser/tauri-window-spawner.rs, as it is built off Windows: the windows that the
-- overlays are shown in. Tauri's answers and the parsing of URLs are arguments; it refuses a second
-- window with a label in use.
use weftgrid.Base.{
  ℕ, Bool, true, false, Option, none, some, List, [], ◌∷◌, ◌++◌, Bytes, bytes_discrete,
}
use weftgrid.Base.Int.{ℤ}
use weftgrid.Base.Decimal.{decimal}
use weftgrid.Base.Maps.{lookup, insert, remove}
use weftgrid.Base.Results.{Result, ok, err}
use weftgrid.Base.Text.{codes}

-- a UUID as it is printed
abbrev pub PaneId : Type 0
PaneId = Bytes

pub record OverlayCreateParams : Type 0 where
  pub pane_id : PaneId
  pub cdp_port : Option ℕ
  pub proxy_url : Option Bytes
  pub profile_dir : Bytes

unfoldable pub window_label : OverlayCreateParams → Bytes
window_label params = codes "browser-" ++ params.pane_id

abbrev args_for : Option ℕ → Option Bytes
args_for none = none
args_for (some port) = some (
    codes "--remote-debugging-port="
    ++ decimal port
    ++ codes " --disable-features=msWebOOUI,msPdfOOUI,msSmartScreenProtection"
    ++ codes " --autoplay-policy=no-user-gesture-required")

unfoldable pub cdp_args : OverlayCreateParams → Option Bytes
cdp_args params = args_for params.cdp_port

-- Where a window is and how large, in physical pixels.
pub record PhysicalRect : Type 0 where
  pub x : ℤ
  pub y : ℤ
  pub width : ℕ
  pub height : ℕ

pub record Window : Type 0 where
  pub url : Bytes
  pub visible : Bool
  pub on_top : Bool
  pub position : Option (ℤ × ℤ)
  pub size : Option (ℕ × ℕ)
  pub proxy : Option Bytes
  pub data_directory : Bytes
  pub evaluated : List Bytes

abbrev pub Windows : Type 0
Windows = List (Bytes × Window)

-- What a call of Tauri returns: nothing, or the text of its error.
abbrev pub Answer : Type 0
Answer = Result (Unit {0}) Bytes

abbrev pub built_window : OverlayCreateParams → Option Bytes → Window
built_window params proxy = record {
  url = codes "about:blank";
  visible = false;
  on_top = false;
  position = none;
  size = none;
  proxy = proxy;
  data_directory = params.profile_dir;
  evaluated = [];
}

-- `window`, then one call on it: what the call does when it succeeds, and the words before its error.
unfoldable pub on_found :
    Windows → Bytes → (Window → Window) → Bytes → Answer → Option Window → Windows × Answer
on_found ws label change what answer none =
    (ws, err (codes "overlay window '" ++ label ++ codes "' not found"))
on_found ws label change what (err e) (some w) = (ws, err (what ++ e))
on_found ws label change what (ok _) (some w) = (insert bytes_discrete label (change w) ws, ok tt)

unfoldable pub on_window : Windows → Bytes → (Window → Window) → Bytes → Answer → Windows × Answer
unfolding on_found
on_window ws label change what answer =
    on_found ws label change what answer (lookup bytes_discrete label ws)

-- `set_size`, if `set_position` succeeded.
unfoldable pub set_size_after : Bytes → PhysicalRect → Answer → Windows × Answer → Windows × Answer
unfolding on_window
set_size_after label rect sized (ws, err e) = (ws, err e)
set_size_after label rect sized (ws, ok _) =
    on_window ws label (λ w. record w { size = some (rect.width, rect.height) })
      (codes "set_size: ") sized

unfoldable pub set_bounds : Windows → Bytes → PhysicalRect → Answer → Answer → Windows × Answer
unfolding set_size_after
set_bounds ws label rect placed sized = set_size_after label rect sized (
    on_window ws label (λ w. record w { position = some (rect.x, rect.y) }) (codes "set_position: ")
      placed)

unfoldable pub set_visible : Windows → Bytes → Bool → Answer → Windows × Answer
unfolding on_window
set_visible ws label true answer =
    on_window ws label (λ w. record w { visible = true }) (codes "show: ") answer
set_visible ws label false answer =
    on_window ws label (λ w. record w { visible = false }) (codes "hide: ") answer

unfoldable pub set_on_top : Windows → Bytes → Bool → Answer → Windows × Answer
unfolding on_window
set_on_top ws label on_top answer =
    on_window ws label (λ w. record w { on_top = on_top }) (codes "set_always_on_top: ") answer

unfoldable pub destroy_found : Windows → Bytes → Answer → Option Window → Windows × Answer
destroy_found ws label answer none =
    (ws, err (codes "overlay window '" ++ label ++ codes "' not found"))
destroy_found ws label (err e) (some w) = (ws, err (codes "destroy: " ++ e))
destroy_found ws label (ok _) (some w) = (remove bytes_discrete label ws, ok tt)

unfoldable pub destroy : Windows → Bytes → Answer → Windows × Answer
unfolding destroy_found
destroy ws label answer = destroy_found ws label answer (lookup bytes_discrete label ws)

-- The two offsets as they are printed.
abbrev pub Scroll : Type 0
Scroll = Bytes × Bytes

abbrev scroll_script : Scroll → Bytes
scroll_script (x, y) = codes "window.scrollTo(" ++ x ++ codes ", " ++ y ++ codes ");"

-- The result of the script is ignored.
unfoldable pub restore_scroll : Windows → Bytes → Scroll → Windows × Answer
unfolding on_window
restore_scroll ws label scroll =
    on_window ws label (λ w. record w { evaluated = scroll_script scroll ∷ w.evaluated }) [] (ok tt)

-- What Tauri does with URLs and labels: a URL is parsed into its normal form or refused.
pub record UrlParser : Type 0 where
  pub parse : Bytes → Result Bytes Bytes
  pub label_in_use : Bytes

-- The answers to one `spawn`.
pub record SpawnAnswers : Type 0 where
  pub build : Answer
  pub navigated : Answer

module _ (urls : UrlParser) where
  unfoldable pub navigate_parsed :
      Windows → Bytes → Bytes → Bytes → Answer → Result Bytes Bytes → Windows × Answer
  unfolding on_window
  navigate_parsed ws label invalid url answer (err e) =
      (ws, err (invalid ++ url ++ codes "': " ++ e))
  navigate_parsed ws label invalid url answer (ok u) =
      on_window ws label (λ w. record w { url = u }) (codes "navigate: ") answer

  unfoldable pub navigate : Windows → Bytes → Bytes → Answer → Windows × Answer
  unfolding navigate_parsed
  navigate ws label url answer =
      navigate_parsed ws label (codes "invalid url '") url answer (urls.parse url)

  -- The end of `spawn`, with the window built.
  unfoldable pub first_parsed :
      Windows → Bytes → Window → Bytes → Answer → Result Bytes Bytes → Windows × Result Bytes Bytes
  first_parsed ws label w url answer (err e) =
      (ws, err (codes "invalid initial url '" ++ url ++ codes "': " ++ e))
  first_parsed ws label w url (err e) (ok u) = (ws, err (codes "navigate overlay: " ++ e))
  first_parsed ws label w url (ok _) (ok u) =
      (insert bytes_discrete label (record w { url = u }) ws, ok label)

  unfoldable pub first_navigation :
      Windows → Bytes → Window → Answer → Option Bytes → Windows × Result Bytes Bytes
  unfolding first_parsed
  first_navigation ws label w answer none = (ws, ok label)
  first_navigation ws label w answer (some url) =
      first_parsed ws label w url answer (urls.parse url)

  unfoldable pub build_with :
      Windows → Bytes → Window → Option Bytes → Answer → Answer → Windows × Result Bytes Bytes
  unfolding first_navigation
  build_with ws label w url answer (err e) = (ws, err (codes "build overlay window: " ++ e))
  build_with ws label w url answer (ok _) =
      first_navigation (insert bytes_discrete label w ws) label w answer url

  unfoldable pub build_window :
      Windows
      → Bytes
      → Window
      → Option Bytes
      → SpawnAnswers
      → Option Window
      → Windows × Result Bytes Bytes
  unfolding build_with
  build_window ws label w url a (some _) =
      (ws, err (codes "build overlay window: " ++ urls.label_in_use))
  build_window ws label w url a none = build_with ws label w url a.navigated a.build

  unfoldable pub proxy_parsed : Bytes → Result Bytes Bytes → Result (Option Bytes) Bytes
  proxy_parsed proxy (err e) = err (codes "invalid proxy_url '" ++ proxy ++ codes "': " ++ e)
  proxy_parsed proxy (ok u) = ok (some u)

  unfoldable pub parse_proxy : Option Bytes → Result (Option Bytes) Bytes
  unfolding proxy_parsed
  parse_proxy none = ok none
  parse_proxy (some proxy) = proxy_parsed proxy (urls.parse proxy)

  unfoldable pub spawn_with :
      Windows
      → OverlayCreateParams
      → Option Bytes
      → SpawnAnswers
      → Result (Option Bytes) Bytes
      → Windows × Result Bytes Bytes
  unfolding build_window
  spawn_with ws params url a (err e) = (ws, err e)
  spawn_with ws params url a (ok proxy) =
      build_window ws (window_label params) (built_window params proxy) url a
        (lookup bytes_discrete (window_label params) ws)

  -- `about:blank` is a URL that parses, which is taken for granted here.
  unfoldable pub spawn :
      Windows → OverlayCreateParams → Option Bytes → SpawnAnswers → Windows × Result Bytes Bytes
  unfolding spawn_with parse_proxy window_label
  spawn ws params url a = spawn_with ws params url a (parse_proxy params.proxy_url)
