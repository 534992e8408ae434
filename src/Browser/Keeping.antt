-- ===== src/Browser/Keeping.antt =====
-- Which windows the operations on windows leave there.
use weftgrid.Base.{
  ◌≡◌, ◌≢◌, refl, Bool, true, false, Option, none, some, [], Bytes, bytes_discrete, if_pos, if_neg,
}
use weftgrid.Base.Maps.{lookup, insert, remove, lookup-insert, lookup-remove}
use weftgrid.Base.Results.{Result, ok, err}
use weftgrid.Base.Text.{codes}
use weftgrid.Browser.Windows.{
  PaneId, OverlayCreateParams, window_label, PhysicalRect, Window, Windows, Answer, on_found,
  on_window, set_size_after, destroy_found, Scroll, UrlParser, SpawnAnswers, navigate_parsed,
  first_parsed, first_navigation, build_with, build_window, spawn_with, parse_proxy, spawn,
}
use weftgrid.Browser.Windows
use weftgrid.Browser.Overlay.{scrolled}

abbrev pub is_there : Option Window → Bool
is_there none = false
is_there (some w) = true

abbrev pub present : Bytes → Windows → Bool
present label ws = is_there (lookup bytes_discrete label ws)

-- Every window of the one is in the other.
abbrev pub Keeps : Windows → Windows → Type 0
Keeps ws vs = (label : Bytes) → present label ws ≡ true → present label vs ≡ true

pub insert-Keeps :
    (ws : Windows) (label : Bytes) (w : Window) → Keeps ws (insert bytes_discrete label w ws)
insert-Keeps ws label w l h = elim (bytes_discrete label l) [
  | yes e ↦ rw (lookup-insert, if_pos (bytes_discrete label l) e) refl
  | no e ↦ rw (lookup-insert, if_neg (bytes_discrete label l) e) h
]

pub present-insert_self :
    (ws : Windows) (label : Bytes) (w : Window)
    → present label (insert bytes_discrete label w ws) ≡ true
present-insert_self ws label w = rw (lookup-insert, if_pos (bytes_discrete label label) refl) refl

present-remove :
    (ws : Windows) (label l : Bytes)
    → label ≢ l
    → present l ws ≡ true
    → present l (remove bytes_discrete label ws) ≡ true
present-remove ws label l e h = rw (lookup-remove, if_neg (bytes_discrete label l) e) h

on_found-Keeps :
    (ws : Windows) (label : Bytes) (f : Window → Window) (what : Bytes) (a : Answer)
    (o : Option Window)
    → Keeps ws (on_found ws label f what a o).0
unfolding on_found
on_found-Keeps ws label f what a none l h = h
on_found-Keeps ws label f what (err e) (some w) l h = h
on_found-Keeps ws label f what (ok _) (some w) l h = insert-Keeps ws label (f w) l h

on_window-Keeps :
    (ws : Windows) (label : Bytes) (f : Window → Window) (what : Bytes) (a : Answer)
    → Keeps ws (on_window ws label f what a).0
unfolding on_window
on_window-Keeps ws label f what a =
    on_found-Keeps ws label f what a (lookup bytes_discrete label ws)

set_size_after-Keeps :
    (ws : Windows) (label : Bytes) (rect : PhysicalRect) (a : Answer) (r : Windows × Answer)
    → Keeps ws r.0
    → Keeps ws (set_size_after label rect a r).0
unfolding set_size_after
set_size_after-Keeps ws label rect a (vs, err e) k l h = k l h
set_size_after-Keeps ws label rect a (vs, ok _) k l h =
    on_window-Keeps vs label _ (codes "set_size: ") a l (k l h)

pub set_bounds-Keeps :
    (ws : Windows) (label : Bytes) (rect : PhysicalRect) (a b : Answer)
    → Keeps ws (Windows.set_bounds ws label rect a b).0
unfolding Windows.set_bounds
set_bounds-Keeps ws label rect a b =
    set_size_after-Keeps ws label rect b _ (on_window-Keeps ws label _ (codes "set_position: ") a)

pub set_visible-Keeps :
    (ws : Windows) (label : Bytes) (v : Bool) (a : Answer)
    → Keeps ws (Windows.set_visible ws label v a).0
unfolding Windows.set_visible
set_visible-Keeps ws label true a = on_window-Keeps ws label _ (codes "show: ") a
set_visible-Keeps ws label false a = on_window-Keeps ws label _ (codes "hide: ") a

pub set_on_top-Keeps :
    (ws : Windows) (label : Bytes) (v : Bool) (a : Answer)
    → Keeps ws (Windows.set_on_top ws label v a).0
unfolding Windows.set_on_top
set_on_top-Keeps ws label v a = on_window-Keeps ws label _ (codes "set_always_on_top: ") a

pub scrolled-Keeps :
    (ws : Windows) (label : Bytes) (s : Option Scroll) → Keeps ws (scrolled ws label s).0
unfolding Windows.restore_scroll
scrolled-Keeps ws label none l h = h
scrolled-Keeps ws label (some s) l h = on_window-Keeps ws label _ [] (ok tt) l h

-- Asking a window to go leaves every other window.
pub destroy-present :
    (ws : Windows) (label : Bytes) (a : Answer) (o : Option Window) (l : Bytes)
    → label ≢ l
    → present l ws ≡ true
    → present l (destroy_found ws label a o).0 ≡ true
unfolding destroy_found
destroy-present ws label a none l e h = h
destroy-present ws label (err _) (some w) l e h = h
destroy-present ws label (ok _) (some w) l e h = present-remove ws label l e h

module _ (urls : UrlParser) where
  navigate_parsed-Keeps :
      (ws : Windows) (label invalid url : Bytes) (a : Answer) (r : Result Bytes Bytes)
      → Keeps ws (navigate_parsed urls ws label invalid url a r).0
  unfolding navigate_parsed
  navigate_parsed-Keeps ws label invalid url a (err e) l h = h
  navigate_parsed-Keeps ws label invalid url a (ok u) l h =
      on_window-Keeps ws label _ (codes "navigate: ") a l h

  pub navigate-Keeps :
      (ws : Windows) (label url : Bytes) (a : Answer)
      → Keeps ws (Windows.navigate urls ws label url a).0
  unfolding Windows.navigate
  navigate-Keeps ws label url a =
      navigate_parsed-Keeps ws label (codes "invalid url '") url a (urls.parse url)

  -- The windows grow, and the label that is returned is the one asked for and names a window.
  abbrev pub IsSpawned : Windows → Bytes → Windows × Result Bytes Bytes → Type 0
  IsSpawned ws label (vs, err e) = Keeps ws vs
  IsSpawned ws label (vs, ok l) = Keeps ws vs × (l ≡ label) × (present label vs ≡ true)

  first_navigation-IsSpawned :
      (ws vs : Windows) (label : Bytes) (w : Window) (a : Answer) (url : Option Bytes)
      → Keeps ws vs
      → present label vs ≡ true
      → IsSpawned ws label (first_navigation urls vs label w a url)
  unfolding first_navigation
  first_navigation-IsSpawned ws vs label w a none k p = (k, refl, p)
  first_navigation-IsSpawned ws vs label w a (some url) k p = parsed a (urls.parse url)
    where
      parsed :
          (a : Answer) (r : Result Bytes Bytes)
          → IsSpawned ws label (first_parsed urls vs label w url a r)
      parsed a (err e) = k
      parsed (err e) (ok u) = k
      parsed (ok _) (ok u) =
          (λ l h. insert-Keeps vs label _ l (k l h), refl, present-insert_self vs label _)

  spawn_with-IsSpawned :
      (ws : Windows) (params : OverlayCreateParams) (url : Option Bytes) (a : SpawnAnswers)
      (r : Result (Option Bytes) Bytes)
      → IsSpawned ws (window_label params) (spawn_with urls ws params url a r)
  unfolding spawn_with
  spawn_with-IsSpawned ws params url a (err e) = λ l h. h
  spawn_with-IsSpawned ws params url a (ok proxy) =
      built (lookup bytes_discrete (window_label params) ws)
    where
      with_answer :
          (r : Answer)
          → IsSpawned ws (window_label params) (
              build_with urls ws
                (window_label params)
                (Windows.built_window params proxy)
                url
                a.navigated
                r)
      with_answer (err e) = λ l h. h
      with_answer (ok _) =
          first_navigation-IsSpawned ws
            (insert bytes_discrete (window_label params) (Windows.built_window params proxy) ws)
            (window_label params) (Windows.built_window params proxy) a.navigated url
            (insert-Keeps ws (window_label params) (Windows.built_window params proxy))
            (present-insert_self ws (window_label params) (Windows.built_window params proxy))

      built :
          (o : Option Window)
          → IsSpawned ws (window_label params) (
              build_window urls ws
                (window_label params)
                (Windows.built_window params proxy)
                url
                a
                o)
      built (some w) = λ l h. h
      built none = with_answer a.build

  -- Whatever Tauri answers, spawning takes no window away, and a spawn that succeeds returns the
  -- pane's label and has a window of that label.
  pub spawn-IsSpawned :
      (ws : Windows) (params : OverlayCreateParams) (url : Option Bytes) (a : SpawnAnswers)
      → IsSpawned ws (window_label params) (spawn urls ws params url a)
  unfolding spawn
  spawn-IsSpawned ws params url a =
      spawn_with-IsSpawned ws params url a (parse_proxy urls params.proxy_url)
