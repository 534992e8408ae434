-- ===== src/Browser/Recreate.antt =====
-- What becomes of a pane's overlay when an operation on it succeeds, and when it fails half-way.
use weftgrid.Base.{◌≡◌, refl, Option, none, some, List, ◌++◌, Bytes, bytes_discrete, if_pos}
use weftgrid.Base.Maps.{lookup, insert, remove, lookup-insert_self, lookup-remove}
use weftgrid.Base.Results.{Result, ok, err}
use weftgrid.Base.Text.{codes}
use weftgrid.Browser.Windows.{
  PaneId, OverlayCreateParams, window_label, Window, Windows, Answer, built_window, destroy_found,
  Scroll, UrlParser, SpawnAnswers, first_parsed, first_navigation, build_with, build_window,
  spawn_with, parse_proxy, proxy_parsed, spawn,
}
use weftgrid.Browser.Windows
use weftgrid.Browser.Overlay.{
  OverlayEntry, OverlayManager, entry, created, plan_of, plan_recreate, RecreateAnswers,
  create_if_absent, create, finish_recreate, replace, execute_recreate, recreate_planned, recreate,
  destroy_silent,
}

-- The answer is an error.
abbrev pub IsErr : {A : Type 0} → Result A Bytes → Type 0
IsErr (ok a) = ⊥
IsErr (err e) = Unit {0}

lookup-remove_self :
    {V : Type 0} (k : Bytes) (m : List (Bytes × V))
    → lookup bytes_discrete k (remove bytes_discrete k m) ≡ none
lookup-remove_self k m = rw (lookup-remove, if_pos (bytes_discrete k k) refl) refl

module _ (urls : UrlParser) where
  -- A label in use is refused, whatever else is asked.
  spawn_taken :
      (ws : Windows) (params : OverlayCreateParams) (url : Option Bytes) (a : SpawnAnswers)
      (w : Window) (r : Result (Option Bytes) Bytes)
      → lookup bytes_discrete (window_label params) ws ≡ some w
      → IsErr (spawn_with urls ws params url a r).1
  unfolding spawn_with build_window
  spawn_taken ws params url a w (err e) h = tt
  spawn_taken ws params url a w (ok proxy) h = rw h tt

  created_taken :
      (m : OverlayManager) (params : OverlayCreateParams) (url : Option Bytes)
      (r : Windows × Result Bytes Bytes)
      → IsErr r.1
      → IsErr (created m params url r).1
  unfolding created
  created_taken m params url (ws, err e) h = tt
  created_taken m params url (ws, ok l) h = absurd h

  -- The manager with a window that no entry speaks of.
  abbrev pub orphaned : OverlayManager → OverlayCreateParams → Option Bytes → OverlayManager
  orphaned m params proxy = record m {
    windows = insert bytes_discrete (window_label params) (built_window params proxy) m.windows;
  }

  create-orphaned :
      (m : OverlayManager) (params : OverlayCreateParams) (url e : Bytes) (nav : Answer)
      (proxy : Option Bytes)
      → entry m params.pane_id ≡ none
      → lookup bytes_discrete (window_label params) m.windows ≡ none
      → parse_proxy urls params.proxy_url ≡ ok proxy
      → urls.parse url ≡ err e
      → create urls m params (some url) (record { build = ok tt; navigated = nav })
        ≡ (orphaned m params proxy, err (codes "invalid initial url '" ++ url ++ codes "': " ++ e))
  unfolding create create_if_absent created spawn spawn_with build_window build_with
      first_navigation first_parsed
  create-orphaned m params url e nav proxy absent free p u = rw (absent, p, free, u) refl

  create-refused :
      (m : OverlayManager) (params : OverlayCreateParams) (url : Option Bytes) (a : SpawnAnswers)
      (w : Window)
      → entry m params.pane_id ≡ none
      → lookup bytes_discrete (window_label params) m.windows ≡ some w
      → IsErr (create urls m params url a).1
  unfolding create create_if_absent spawn
  create-refused m params url a w absent taken = rw absent (
      created_taken m params url
        (spawn_with urls m.windows params url a (parse_proxy urls params.proxy_url))
        (spawn_taken m.windows params url a w (parse_proxy urls params.proxy_url) taken))

  -- Where the pane has no overlay, its label is free, the window is built and the proxy, if any,
  -- parses, but the initial URL does not: `create` is an error and the pane has no entry, but the
  -- window is there, and the next `create` for the pane is an error too, whatever its URL and
  -- parameters.
  pub create-orphans :
      (m : OverlayManager) (params later : OverlayCreateParams) (url e : Bytes) (nav : Answer)
      (again : Option Bytes) (a : SpawnAnswers) (proxy : Option Bytes)
      → entry m params.pane_id ≡ none
      → lookup bytes_discrete (window_label params) m.windows ≡ none
      → parse_proxy urls params.proxy_url ≡ ok proxy
      → urls.parse url ≡ err e
      → later.pane_id ≡ params.pane_id
      → (create urls m params (some url) (record { build = ok tt; navigated = nav }) ≡ (
        orphaned m params proxy,
        err (codes "invalid initial url '" ++ url ++ codes "': " ++ e),
      ))
        × (entry (orphaned m params proxy) params.pane_id ≡ none)
        × (lookup bytes_discrete (window_label params) (orphaned m params proxy).windows
            ≡ some (built_window params proxy))
        × IsErr (create urls (orphaned m params proxy) later again a).1
  unfolding window_label
  create-orphans m params later url e nav again a proxy absent free p u same =
      let there =
        lookup-insert_self bytes_discrete (window_label params) (built_window params proxy)
          m.windows in
      (
        create-orphaned m params url e nav proxy absent free p u,
        absent,
        there,
        create-refused (orphaned m params proxy) later again a (built_window params proxy)
            (rw same absent) (rw same there),
      )

  -- Where the new proxy does not parse and the old window goes: `recreate` is an error, and the pane
  -- has neither its old overlay nor a new one.
  pub recreate-loses :
      (m : OverlayManager) (old : OverlayEntry) (w : Window) (params : OverlayCreateParams)
      (scroll : Option Scroll) (a : RecreateAnswers) (proxy e : Bytes)
      → entry m params.pane_id ≡ some old
      → lookup bytes_discrete old.label m.windows ≡ some w
      → a.destroyed ≡ ok tt
      → params.proxy_url ≡ some proxy
      → urls.parse proxy ≡ err e
      → IsErr (recreate urls m params.pane_id params scroll a).1
        × (entry (recreate urls m params.pane_id params scroll a).0 params.pane_id ≡ none)
        × (lookup bytes_discrete old.label
              (recreate urls m params.pane_id params scroll a).0.windows
            ≡ none)
  unfolding recreate recreate_planned plan_recreate plan_of execute_recreate replace destroy_silent
      Windows.destroy destroy_found create create_if_absent created spawn spawn_with parse_proxy
      proxy_parsed finish_recreate
  recreate-loses m old w params scroll a proxy e h there gone new bad =
      rw
        (
          h,
          if_pos (bytes_discrete params.pane_id params.pane_id) refl,
          there,
          gone,
          lookup-remove bytes_discrete params.pane_id params.pane_id m.overlays,
        )
        (rw (if_pos (bytes_discrete params.pane_id params.pane_id) refl) (
          rw (new, bad)
            (
              tt,
              lookup-remove_self params.pane_id m.overlays,
              lookup-remove_self old.label m.windows,
            )))
