-- ===== src/Notify/Osc.antt =====
-- src-tauri/src/notify/osc.rs: what a sequence means as a notification, and the builders that
-- `weft notify` uses.
pub mod RoundTrip
use weftgrid.Base.{
  ℕ, Bool, Option, none, some, List, [], ◌∷◌, ◌++◌, ◌==◌, ◌&&◌, true, false, if◌then◌else◌, Bytes,
}
use weftgrid.Base.Text.{codes, split_once, strip_prefix, equal}
use weftgrid.Notify.Scanner.{RawOsc, esc, bel}

pub record ParsedNotification : Type 0 where
  pub title : Bytes
  pub subtitle : Bytes
  pub body : Bytes

abbrev pub empty : ParsedNotification
empty = record { title = []; subtitle = []; body = [] }

abbrev pub body_only : Bytes → ParsedNotification
body_only b = record empty { body = b }

abbrev pub is_empty : Bytes → Bool
is_empty [] = true
is_empty (_ ∷ _) = false

unfoldable pub parse_osc9 : Bytes → Option ParsedNotification
parse_osc9 d = if is_empty d then none else some (body_only d)

-- `match rest.split_once(';')`
abbrev pub title_and_body : Bytes → Option (Bytes × Bytes) → Bytes × Bytes
title_and_body rest none = (rest, [])
title_and_body rest (some p) = p

unfoldable pub notify_fields : Option Bytes → Option ParsedNotification
notify_fields none = none
notify_fields (some rest) =
    let p = title_and_body rest (split_once b';' rest) in
    if is_empty p.0 && is_empty p.1
    then none
    else some (record { title = p.0; subtitle = []; body = p.1 })

unfoldable pub parse_osc777 : Bytes → Option ParsedNotification
unfolding notify_fields
parse_osc777 d = notify_fields (strip_prefix (codes "notify;") d)

-- `pair.split_once('=')`, and `field = v` where the key is `p`
abbrev pub assigned : Bytes → Option (Bytes × Bytes) → Bytes
assigned field none = field
assigned field (some (k, v)) = if equal k (codes "p") then v else field

-- The loop over `meta.split(':')`; `pair` holds the bytes of the current piece.
unfoldable pub target_field : Bytes → Bytes → Bytes → Bytes
target_field field pair [] = assigned field (split_once b'=' pair)
target_field field pair (c ∷ cs) =
    target_field (if c == b':' then assigned field (split_once b'=' pair) else field)
      (if c == b':' then [] else pair ++ c ∷ []) cs

unfoldable pub fill_field : Bytes → Bytes → ParsedNotification
fill_field field payload =
    if equal field (codes "title")
    then record empty { title = payload }
    else if equal field (codes "subtitle")
    then record empty { subtitle = payload }
    else record empty { body = payload }

unfoldable pub keyed_fields : Option (Bytes × Bytes) → Option ParsedNotification
unfolding target_field fill_field
keyed_fields none = none
keyed_fields (some (meta, payload)) =
    if is_empty payload
    then none
    else some (fill_field (target_field (codes "body") [] meta) payload)

unfoldable pub parse_osc99 : Bytes → Option ParsedNotification
unfolding keyed_fields
parse_osc99 d = keyed_fields (split_once b';' d)

unfoldable pub parse_notification : RawOsc → Option ParsedNotification
unfolding parse_osc9 parse_osc777 parse_osc99
parse_notification osc =
    if osc.code == 9
    then parse_osc9 osc.payload
    else if osc.code == 777
    then parse_osc777 osc.payload
    else if osc.code == 99
    then parse_osc99 osc.payload
    else none

unfoldable pub build_osc9 : Bytes → Bytes
build_osc9 body = esc ∷ b']' ∷ codes "9;" ++ (body ++ bel ∷ [])

unfoldable pub build_osc777 : Bytes → Bytes → Bytes
build_osc777 title body = esc ∷ b']' ∷ codes "777;notify;" ++ (title ++ (b';' ∷ (body ++ bel ∷ [])))

unfoldable pub build_osc99 : Bytes → Bytes → Bytes
build_osc99 field payload =
    esc ∷ b']' ∷ codes "99;p=" ++ (field ++ (b';' ∷ (payload ++ esc ∷ b'\\' ∷ [])))
