-- ===== src/Tests/Browser.antt =====
-- Tests of the browser track.
use weftgrid.Base.{
  ℕ, ◌≡◌, refl, Bool, true, false, Option, none, some, List, [], ◌∷◌, ◌++◌, Bytes, bytes_discrete,
  if◌then◌else◌, ◌==◌, arith,
}
use weftgrid.Base.Maps.{lookup}
use weftgrid.Base.Results.{Result, ok, err}
use weftgrid.Base.Text.{codes}
use weftgrid.Browser.Windows.{
  OverlayCreateParams, window_label, UrlParser, SpawnAnswers, built_window, parse_proxy, cdp_args,
}
use weftgrid.Browser.Overlay.{
  OverlayEntry, OverlayManager, empty_manager, entry, entry_of, create, recreate, RecreateAnswers,
}
use weftgrid.Browser.Tracking.{
  IsTracked, Call, opens, navigates, closes, recreates, run, run-IsTracked,
}
use weftgrid.Browser.Recreate.{IsErr, orphaned, create-orphans, recreate-loses}

-- A parser that takes what begins with `h`.
abbrev parse_h : Bytes → Result Bytes Bytes
parse_h [] = err (codes "empty")
parse_h (c ∷ cs) = if c == b'h' then ok (c ∷ cs) else err (codes "relative URL without a base")

abbrev urls : UrlParser
urls = record { parse = parse_h; label_in_use = codes "label in use" }

abbrev params : OverlayCreateParams
params = record {
  pane_id = codes "p";
  cdp_port = some 0;
  proxy_url = none;
  profile_dir = codes "/prof";
}

abbrev bad_proxy : OverlayCreateParams
bad_proxy = record params { proxy_url = some (codes "socks") }

abbrev answers : SpawnAnswers
answers = record { build = ok tt; navigated = ok tt }

abbrev recreate_answers : RecreateAnswers
recreate_answers = record { destroyed = ok tt; spawned = answers; raised = ok tt }

args_test :
    cdp_args params
    ≡ some (
        codes
          "--remote-debugging-port=0 --disable-features=msWebOOUI,msPdfOOUI,msSmartScreenProtection --autoplay-policy=no-user-gesture-required")
unfolding cdp_args weftgrid.Base.Decimal.decimal
args_test = refl

empty-IsTracked : IsTracked empty_manager
unfolding lookup
empty-IsTracked = record { one_each = tt; tracked = λ p e h. cc }

abbrev some_calls : List Call
some_calls =
    opens params (some (codes "http://a")) answers
    ∷ navigates (codes "p") (codes "http://b") (ok tt)
    ∷ recreates (codes "p") params none recreate_answers
    ∷ closes (codes "p") (ok tt)
    ∷ []

run-IsTracked_example : IsTracked (run urls empty_manager some_calls)
run-IsTracked_example = run-IsTracked urls empty_manager some_calls empty-IsTracked

create-orphans_example :
    (create urls empty_manager params (some (codes "nope")) answers ≡ (
      orphaned urls empty_manager params none,
      err (
          codes "invalid initial url '"
          ++ codes "nope"
          ++ codes "': "
          ++ codes "relative URL without a base"),
    ))
    × (entry (orphaned urls empty_manager params none) (codes "p") ≡ none)
    × (lookup bytes_discrete (window_label params) (orphaned urls empty_manager params none).windows
        ≡ some (built_window params none))
    × IsErr (create urls (orphaned urls empty_manager params none) params none answers).1
unfolding lookup parse_proxy
create-orphans_example =
    create-orphans urls empty_manager params params (codes "nope")
      (codes "relative URL without a base") (ok tt) none answers none refl refl refl refl refl

abbrev open_entry : OverlayEntry
open_entry = entry_of params (some (codes "http://a")) (codes "browser-p")

abbrev one_overlay : OverlayManager
one_overlay = record {
  overlays = (codes "p", open_entry) ∷ [];
  windows = (codes "browser-p", built_window params none) ∷ [];
}

recreate-loses_example :
    IsErr (recreate urls one_overlay (codes "p") bad_proxy none recreate_answers).1
    × (entry (recreate urls one_overlay (codes "p") bad_proxy none recreate_answers).0 (codes "p")
        ≡ none)
    × (lookup bytes_discrete
          (codes "browser-p")
          (recreate urls one_overlay (codes "p") bad_proxy none recreate_answers).0.windows
        ≡ none)
unfolding lookup bytes_discrete weftgrid.Base.ℕ_discrete
recreate-loses_example =
    recreate-loses urls one_overlay open_entry (built_window params none) bad_proxy none
      recreate_answers (codes "socks") (codes "relative URL without a base") refl refl refl refl
      refl
