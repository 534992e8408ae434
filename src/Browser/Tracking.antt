-- ===== src/Browser/Tracking.antt =====
-- Every entry of the manager has its window.
use weftgrid.Base.{
  ◌∙◌, subst, ap, ◌≡◌, ◌≢◌, refl, sym, Bool, true, Option, none, some, List, [], ◌∷◌, ◌++◌, Bytes,
  bytes_discrete, if_pos, if_neg, inl, inr,
}
use weftgrid.Base.Maps.{
  lookup, insert, remove, insert-found, remove-found, IsMap, insert-IsMap, remove-IsMap,
}
use weftgrid.Base.Results.{Result, ok, err}
use weftgrid.Base.Text.{codes}
use weftgrid.Browser.Windows.{
  PaneId, OverlayCreateParams, window_label, PhysicalRect, Window, Windows, Answer, on_found,
  on_window, set_size_after, destroy_found, Scroll, UrlParser, SpawnAnswers, navigate_parsed,
  first_parsed, first_navigation, build_with, build_window, spawn_with, parse_proxy, spawn,
}
use weftgrid.Browser.Windows
use weftgrid.Browser.Overlay.{
  OverlayEntry, OverlayManager, entry, entry_of, created, noted, passed_on, set_visible_of,
  set_visible, set_on_top_of, set_on_top, position_of, position, shown_after, sync_bounds,
  destroy_of, destroy, destroy_silent, RecreatePlan, plan_of, plan_recreate, RecreateAnswers,
  create_if_absent, create, navigate_of, navigate, raise, scrolled, finish_recreate, replace,
  execute_recreate, recreate_planned, recreate,
}
use weftgrid.Browser.Keeping.{
  present, Keeps, set_bounds-Keeps, set_visible-Keeps, set_on_top-Keeps, scrolled-Keeps,
  destroy-present, navigate-Keeps, IsSpawned, spawn-IsSpawned,
}

-- The pane's entry is about that pane, and its window is there under its label.
pub record HasWindow (pane : PaneId) (ws : Windows) (e : OverlayEntry) : Type 0 where
  pub label_of : e.label ≡ codes "browser-" ++ pane
  pub window_of : present e.label ws ≡ true

pub record IsTracked (m : OverlayManager) : Type 0 where
  pub one_each : IsMap m.overlays
  pub tracked : (p : PaneId) (e : OverlayEntry) → entry m p ≡ some e → HasWindow p m.windows e

label_inj : (p q : PaneId) → codes "browser-" ++ p ≡ codes "browser-" ++ q → p ≡ q
label_inj p q h = cc

grow-IsTracked :
    (m : OverlayManager) (ws : Windows)
    → IsTracked m
    → Keeps m.windows ws
    → IsTracked (record m { windows = ws })
grow-IsTracked m ws t k = record {
  one_each = t.one_each;
  tracked = λ p e h.
      let w = t.tracked p e h in
      record { label_of = w.label_of; window_of = k e.label w.window_of };
}

put-IsTracked :
    (m : OverlayManager) (pane : PaneId) (new : OverlayEntry)
    → IsTracked m
    → HasWindow pane m.windows new
    → IsTracked (record m { overlays = insert bytes_discrete pane new m.overlays })
put-IsTracked m pane new t w = record {
  one_each = insert-IsMap bytes_discrete pane new m.overlays t.one_each;
  tracked = λ p e h. elim (insert-found bytes_discrete pane p new e m.overlays h) [
    | inl (i, same) ↦
        subst (λ x. HasWindow p m.windows x) same (subst (λ q. HasWindow q m.windows new) i w)
    | inr (_, old) ↦ t.tracked p e old
  ];
}

passed_on-IsTracked :
    (m : OverlayManager) (r : Windows × Answer)
    → IsTracked m
    → Keeps m.windows r.0
    → IsTracked (passed_on m r).0
passed_on-IsTracked m (ws, a) t k = grow-IsTracked m ws t k

noted-IsTracked :
    (m : OverlayManager) (pane : PaneId) (new : OverlayEntry) (r : Windows × Answer)
    → IsTracked m
    → Keeps m.windows r.0
    → HasWindow pane m.windows new
    → IsTracked (noted m pane new r).0
unfolding noted
noted-IsTracked m pane new (ws, err e) t k w = grow-IsTracked m ws t k
noted-IsTracked m pane new (ws, ok _) t k w =
    put-IsTracked (record m { windows = ws }) pane new (grow-IsTracked m ws t k)
      (record { label_of = w.label_of; window_of = k new.label w.window_of })

-- An entry that differs in what no window depends on.
with_label :
    (pane : PaneId) (ws : Windows) (e new : OverlayEntry)
    → new.label ≡ e.label
    → HasWindow pane ws e
    → HasWindow pane ws new
with_label pane ws e new same w = record {
  label_of = same ∙ w.label_of;
  window_of = rw same w.window_of;
}

set_visible-IsTracked :
    (m : OverlayManager) (pane : PaneId) (v : Bool) (a : Answer) (o : Option OverlayEntry)
    → entry m pane ≡ o
    → IsTracked m
    → IsTracked (set_visible_of m pane v a o).0
unfolding set_visible_of
set_visible-IsTracked m pane v a none h t = t
set_visible-IsTracked m pane v a (some e) h t =
    noted-IsTracked m pane (record e { visible = v }) _ t (set_visible-Keeps m.windows e.label v a)
      (with_label pane m.windows e (record e { visible = v }) refl (t.tracked pane e h))

set_on_top-IsTracked :
    (m : OverlayManager) (pane : PaneId) (v : Bool) (a : Answer) (o : Option OverlayEntry)
    → IsTracked m
    → IsTracked (set_on_top_of m pane v a o).0
unfolding set_on_top_of
set_on_top-IsTracked m pane v a none t = t
set_on_top-IsTracked m pane v a (some e) t =
    passed_on-IsTracked m (Windows.set_on_top m.windows e.label v a) t
      (set_on_top-Keeps m.windows e.label v a)

position-IsTracked :
    (m : OverlayManager) (pane : PaneId) (rect : PhysicalRect) (a b : Answer)
    (o : Option OverlayEntry)
    → IsTracked m
    → IsTracked (position_of m pane rect a b o).0
unfolding position_of
position-IsTracked m pane rect a b none t = t
position-IsTracked m pane rect a b (some e) t =
    passed_on-IsTracked m (Windows.set_bounds m.windows e.label rect a b) t
      (set_bounds-Keeps m.windows e.label rect a b)

shown_after-IsTracked :
    (pane : PaneId) (v : Bool) (a : Answer) (r : OverlayManager × Answer)
    → IsTracked r.0
    → IsTracked (shown_after pane v a r).0
unfolding shown_after set_visible
shown_after-IsTracked pane v a (m, err e) t = t
shown_after-IsTracked pane v a (m, ok _) t = set_visible-IsTracked m pane v a (entry m pane) refl t

-- The entry of the pane goes first, so that its window may go too.
forget-IsTracked :
    (m : OverlayManager) (ws : Windows) (pane : PaneId)
    → IsTracked m
    → ((l : Bytes)
        → codes "browser-" ++ pane ≢ l
        → present l m.windows ≡ true
        → present l ws ≡ true)
    → IsTracked (record m { overlays = remove bytes_discrete pane m.overlays; windows = ws })
forget-IsTracked m ws pane t k = record {
  one_each = remove-IsMap bytes_discrete pane m.overlays t.one_each;
  tracked = λ p e h.
      let old = remove-found bytes_discrete pane p e m.overlays h in
      let w = t.tracked p e old.1 in
      record {
        label_of = w.label_of;
        window_of = k e.label (λ j. old.0 (label_inj pane p (j ∙ w.label_of))) w.window_of;
      };
}

destroy-IsTracked :
    (m : OverlayManager) (pane : PaneId) (a : Answer) (o : Option OverlayEntry)
    → entry m pane ≡ o
    → IsTracked m
    → IsTracked (destroy_of m pane a o).0
unfolding destroy_of Windows.destroy
destroy-IsTracked m pane a none h t = t
destroy-IsTracked m pane a (some e) h t =
    forget-IsTracked m
      (destroy_found m.windows e.label a (lookup bytes_discrete e.label m.windows)).0 pane t
      (λ l n p.
        destroy-present m.windows e.label a (lookup bytes_discrete e.label m.windows) l
          (λ j. n (sym (t.tracked pane e h).label_of ∙ j)) p)

raise-IsTracked :
    (m : OverlayManager) (label : Bytes) (a : Answer) (r : Windows × Answer)
    → IsTracked m
    → Keeps m.windows r.0
    → IsTracked (raise m label a r).0
unfolding raise
raise-IsTracked m label a (ws, err e) t k = grow-IsTracked m ws t k
raise-IsTracked m label a (ws, ok _) t k =
    grow-IsTracked m (Windows.set_on_top ws label true a).0 t
      (λ l h. set_on_top-Keeps ws label true a l (k l h))

finish_recreate-IsTracked :
    (plan : RecreatePlan) (a : RecreateAnswers) (r : OverlayManager × Result Bytes Bytes)
    → IsTracked r.0
    → IsTracked (finish_recreate plan a r).0
unfolding finish_recreate
finish_recreate-IsTracked plan a (m, err e) t = t
finish_recreate-IsTracked plan a (m, ok label) t =
    raise-IsTracked m label a.raised (scrolled m.windows label plan.scroll) t
      (scrolled-Keeps m.windows label plan.scroll)

module _ (urls : UrlParser) where
  created-IsTracked :
      (m : OverlayManager) (params : OverlayCreateParams) (url : Option Bytes)
      (r : Windows × Result Bytes Bytes)
      → IsTracked m
      → IsSpawned urls m.windows (window_label params) r
      → IsTracked (created m params url r).0
  unfolding created window_label
  created-IsTracked m params url (ws, err e) t k = grow-IsTracked m ws t k
  created-IsTracked m params url (ws, ok label) t k =
      put-IsTracked (record m { windows = ws }) params.pane_id (entry_of params url label)
        (grow-IsTracked m ws t k.0) (record { label_of = k.1; window_of = rw k.1 k.2 })

  create-IsTracked :
      (m : OverlayManager) (params : OverlayCreateParams) (url : Option Bytes) (a : SpawnAnswers)
      (o : Option OverlayEntry)
      → IsTracked m
      → IsTracked (create_if_absent urls m params url a o).0
  unfolding create_if_absent
  create-IsTracked m params url a (some e) t = t
  create-IsTracked m params url a none t =
      created-IsTracked m params url _ t (spawn-IsSpawned urls m.windows params url a)

  navigate-IsTracked :
      (m : OverlayManager) (pane : PaneId) (url : Bytes) (a : Answer) (o : Option OverlayEntry)
      → entry m pane ≡ o
      → IsTracked m
      → IsTracked (navigate_of urls m pane url a o).0
  unfolding navigate_of
  navigate-IsTracked m pane url a none h t = t
  navigate-IsTracked m pane url a (some e) h t =
      noted-IsTracked m pane (record e { current_url = some url }) _ t
        (navigate-Keeps urls m.windows e.label url a)
        (with_label pane m.windows e (record e { current_url = some url }) refl
          (t.tracked pane e h))

  -- The old window goes before the entry does, so between the two the pane's entry has no window.
  replace-IsTracked :
      (m : OverlayManager) (plan : RecreatePlan) (a : RecreateAnswers) (d : Answer)
      (o : Option Window)
      → plan.old_label ≡ codes "browser-" ++ plan.new_params.pane_id
      → IsTracked m
      → IsTracked (replace urls m plan a (destroy_found m.windows plan.old_label d o)).0
  unfolding replace create destroy_silent destroy_found
  replace-IsTracked m plan a d none same t = t
  replace-IsTracked m plan a (err e) (some w) same t = t
  replace-IsTracked m plan a (ok _) (some w) same t =
      let left : OverlayManager =
        destroy_silent (record m { windows = remove bytes_discrete plan.old_label m.windows })
          plan.new_params.pane_id in
      let forgotten : IsTracked left =
        forget-IsTracked m (remove bytes_discrete plan.old_label m.windows) plan.new_params.pane_id
          t
          (λ l n.
            destroy-present m.windows plan.old_label (ok tt) (some w) l (λ j. n (sym same ∙ j))) in
      finish_recreate-IsTracked plan a (create urls left plan.new_params plan.url a.spawned) (
        create-IsTracked left plan.new_params plan.url a.spawned
          (entry left plan.new_params.pane_id) forgotten)

  recreate-IsTracked :
      (m : OverlayManager) (pane : PaneId) (params : OverlayCreateParams) (scroll : Option Scroll)
      (a : RecreateAnswers) (o : Option OverlayEntry)
      → entry m pane ≡ o
      → IsTracked m
      → IsTracked (recreate_planned urls m a (plan_of pane params scroll o)).0
  unfolding recreate_planned plan_of execute_recreate Windows.destroy
  recreate-IsTracked m pane params scroll a none h t = t
  recreate-IsTracked m pane params scroll a (some e) h t =
      elim (bytes_discrete params.pane_id pane) [
        | yes same ↦ rw (if_pos (bytes_discrete params.pane_id pane) same) (
            replace-IsTracked m _ a a.destroyed (lookup bytes_discrete e.label m.windows)
              ((t.tracked pane e h).label_of ∙ ap (λ q. codes "browser-" ++ q) (sym same)) t)
        | no other ↦ rw (if_neg (bytes_discrete params.pane_id pane) other) t
      ]

-- The commands of the track, each with what Tauri answers.
pub data Call : Type 0 where
  opens : OverlayCreateParams → Option Bytes → SpawnAnswers → Call
  navigates : PaneId → Bytes → Answer → Call
  closes : PaneId → Answer → Call
  syncs : PaneId → PhysicalRect → Bool → Answer → Answer → Answer → Call
  raises : PaneId → Bool → Answer → Call
  recreates : PaneId → OverlayCreateParams → Option Scroll → RecreateAnswers → Call

module _ (urls : UrlParser) where
  unfoldable pub step : OverlayManager → Call → OverlayManager
  step m (opens params url a) = (create urls m params url a).0
  step m (navigates pane url a) = (navigate urls m pane url a).0
  step m (closes pane a) = (destroy m pane a).0
  step m (syncs pane rect v a b c) = (sync_bounds m pane rect v a b c).0
  step m (raises pane on_top a) = (set_on_top m pane on_top a).0
  step m (recreates pane params scroll a) = (recreate urls m pane params scroll a).0

  unfoldable pub run : OverlayManager → List Call → OverlayManager
  run m [] = m
  run m (c ∷ cs) = run (step m c) cs

  step-IsTracked : (m : OverlayManager) (c : Call) → IsTracked m → IsTracked (step m c)
  unfolding step create navigate destroy sync_bounds position set_on_top recreate plan_recreate
  step-IsTracked m (opens params url a) t =
      create-IsTracked urls m params url a (entry m params.pane_id) t
  step-IsTracked m (navigates pane url a) t =
      navigate-IsTracked urls m pane url a (entry m pane) refl t
  step-IsTracked m (closes pane a) t = destroy-IsTracked m pane a (entry m pane) refl t
  step-IsTracked m (syncs pane rect v a b c) t =
      shown_after-IsTracked pane v c _ (position-IsTracked m pane rect a b (entry m pane) t)
  step-IsTracked m (raises pane on_top a) t = set_on_top-IsTracked m pane on_top a (entry m pane) t
  step-IsTracked m (recreates pane params scroll a) t =
      recreate-IsTracked urls m pane params scroll a (entry m pane) refl t

  -- From a manager for which this holds: after any commands, one after another, whichever of them Tauri
  -- refuses, no pane has two entries, and the window of each entry is there, under the label made of the
  -- pane's id.
  pub run-IsTracked : (m : OverlayManager) (cs : List Call) → IsTracked m → IsTracked (run m cs)
  unfolding run
  run-IsTracked m [] t = t
  run-IsTracked m (c ∷ cs) t = run-IsTracked (step m c) cs (step-IsTracked m c t)
