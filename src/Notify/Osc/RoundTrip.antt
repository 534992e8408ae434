-- ===== src/Notify/Osc/RoundTrip.antt =====
-- What the builders write, the scanner extracts and the parsers read back.
use weftgrid.Base.{
  ℕ, some, [], ◌∷◌, ◌++◌, ◌+◌, ◌≤◌, ◌≡◌, ◌≢◌, ◌⊎◌, refl, ◌∙◌, arith, Bytes, length, All, true,
  All-append, length-append, append-nil, append_assoc,
}
use weftgrid.Base.Text.{codes, is_utf8, split_once, parse_u16, equal}
use weftgrid.Base.Text.Laws.{
  from_utf8_lossy_id, from_utf8_lossy-append, split_once-append, strip_prefix-append,
}
use weftgrid.Base.Text.Utf8.{is_utf8-append}
use weftgrid.Notify.Scanner.{RawOsc, esc, bel, max_pending, new, push, parse_body, scan_loop}
use weftgrid.Notify.Scanner.Frames.{IsClean, scan_bel, scan_st}
use weftgrid.Notify.Osc.{
  body_only, parse_notification, build_osc9, build_osc777, build_osc99, target_field, fill_field,
  keyed_fields,
}

-- A text that a Rust `str` can hold and that ends or abandons no sequence.
pub record IsPayload (t : Bytes) : Type 0 where
  pub utf8 : is_utf8 t ≡ true
  pub clean : IsClean t

parse_body-osc9 :
    (body : Bytes)
    → is_utf8 body ≡ true
    → parse_body (codes "9;" ++ body) ≡ some (record { code = 9; payload = body })
unfolding parse_body split_once parse_u16
parse_body-osc9 body h =
    rw (from_utf8_lossy-append (codes "9;") body (omega arith), from_utf8_lossy_id body h)

-- A clean text that fits, framed as the builders frame it, is one sequence for a new scanner.
push-bel_frame :
    (t : Bytes) (osc : RawOsc)
    → IsClean t
    → length t ≤ max_pending
    → parse_body t ≡ some osc
    → push new (esc ∷ b']' ∷ (t ++ bel ∷ [])) ≡ (new, osc ∷ [])
unfolding push scan_loop
push-bel_frame t osc clean fits e = scan_bel t clean fits new [] [] refl ∙ rw e

push-st_frame :
    (t : Bytes) (osc : RawOsc)
    → IsClean t
    → length t ≤ max_pending
    → parse_body t ≡ some osc
    → push new (esc ∷ b']' ∷ (t ++ esc ∷ b'\\' ∷ [])) ≡ (new, osc ∷ [])
unfolding push scan_loop
push-st_frame t osc clean fits e = scan_st t clean fits new [] [] refl ∙ rw e

-- A UTF-8 body with no ESC and no BEL that is not empty and fits the cap, carried by `build_osc9`,
-- comes out of a new scanner as one sequence, which reads as a notification with that body.
pub push-build_osc9 :
    (body : Bytes)
    → IsPayload body
    → body ≢ []
    → length body + 2 ≤ max_pending
    → (push new (build_osc9 body) ≡ (new, record { code = 9; payload = body } ∷ []))
      × (parse_notification (record { code = 9; payload = body }) ≡ some (body_only body))
unfolding build_osc9 parse_notification
push-build_osc9 body h ne fits = (
  push-bel_frame (codes "9;" ++ body) _ (ground (arith, h.clean)) (omega arith)
      (parse_body-osc9 body h.utf8),
  ground arith,
)

abbrev pub Lacks : ℕ → Bytes → Type 0
Lacks c = All (λ b. b ≢ c)

parse_body-osc777 :
    (d : Bytes)
    → is_utf8 d ≡ true
    → parse_body (codes "777;" ++ d) ≡ some (record { code = 777; payload = d })
unfolding parse_body split_once parse_u16
parse_body-osc777 d h =
    rw (from_utf8_lossy-append (codes "777;") d (omega arith), from_utf8_lossy_id d h)

joined-is_utf8 :
    (a b : Bytes) → is_utf8 a ≡ true → is_utf8 b ≡ true → is_utf8 (a ++ (b';' ∷ b)) ≡ true
unfolding is_utf8
joined-is_utf8 a b h k = is_utf8-append a (b';' ∷ b) h (is_utf8-append (b';' ∷ []) b refl k)

IsClean-pair : (a b : Bytes) → IsPayload a → IsPayload b → IsClean (a ++ (b';' ∷ b))
IsClean-pair a b h k =
    All-append (λ c. (c ≢ esc) × (c ≢ bel)) a (b';' ∷ b) h.clean (ground (arith, k.clean))

length_pair : (a b : Bytes) → length (a ++ (b';' ∷ b)) ≡ length a + length b + 1
length_pair a b = omega (arith, length-append a (b';' ∷ b))

-- The part after `777;` of what `build_osc777` writes.
abbrev pub payload777 : Bytes → Bytes → Bytes
payload777 title body = codes "notify;" ++ (title ++ (b';' ∷ body))

payload777-is_utf8 :
    (title body : Bytes) → IsPayload title → IsPayload body → is_utf8 (payload777 title body) ≡ true
unfolding is_utf8
payload777-is_utf8 title body h k =
    is_utf8-append (codes "notify;") (title ++ (b';' ∷ body)) refl
      (joined-is_utf8 title body h.utf8 k.utf8)

-- A title with no semicolon and a body, both UTF-8 with no ESC and no BEL, not both empty, that
-- fit the cap, carried by `build_osc777`, come out of a new scanner as one sequence, which reads
-- as a notification with that title and that body.
pub push-build_osc777 :
    (title body : Bytes)
    → IsPayload title
    → IsPayload body
    → Lacks b';' title
    → (title ≢ []) ⊎ (body ≢ [])
    → length title + length body + 12 ≤ max_pending
    → (push new (build_osc777 title body)
        ≡ (new, record { code = 777; payload = payload777 title body } ∷ []))
      × (parse_notification (record { code = 777; payload = payload777 title body })
          ≡ some (record { title = title; subtitle = []; body = body }))
unfolding build_osc777 parse_notification
push-build_osc777 title body h k lacks ne fits = (
  rw (← append_assoc title (b';' ∷ body) (bel ∷ [])) (
      push-bel_frame (codes "777;notify;" ++ (title ++ (b';' ∷ body))) _
        (ground (arith, IsClean-pair title body h k)) (omega (arith, length_pair title body))
        (parse_body-osc777 (payload777 title body) (payload777-is_utf8 title body h k))),
  ground (
    arith,
    strip_prefix-append (codes "notify;") (title ++ (b';' ∷ body)),
    split_once-append b';' title body lacks,
  ),
)

target_field_plain :
    (field pair rest : Bytes)
    → Lacks b':' rest
    → target_field field pair rest ≡ target_field field (pair ++ rest) []
unfolding target_field
target_field_plain field pair [] h = rw append-nil
target_field_plain field pair (c ∷ rest) h =
    ground
      (arith, target_field_plain field (pair ++ c ∷ []) rest h.1, append_assoc pair (c ∷ []) rest)

parse_body-osc99 :
    (d : Bytes)
    → is_utf8 d ≡ true
    → parse_body (codes "99;" ++ d) ≡ some (record { code = 99; payload = d })
unfolding parse_body split_once parse_u16
parse_body-osc99 d h =
    rw (from_utf8_lossy-append (codes "99;") d (omega arith), from_utf8_lossy_id d h)

-- The part after `99;` of what `build_osc99` writes.
abbrev pub payload99 : Bytes → Bytes → Bytes
payload99 field payload = codes "p=" ++ (field ++ (b';' ∷ payload))

payload99-is_utf8 :
    (field payload : Bytes)
    → IsPayload field
    → IsPayload payload
    → is_utf8 (payload99 field payload) ≡ true
unfolding is_utf8
payload99-is_utf8 field payload h k =
    is_utf8-append (codes "p=") (field ++ (b';' ∷ payload)) refl
      (joined-is_utf8 field payload h.utf8 k.utf8)

target_field_named :
    (field : Bytes)
    → Lacks b':' field
    → target_field (codes "body") [] (codes "p=" ++ field) ≡ field
unfolding target_field split_once equal
target_field_named field h =
    target_field_plain (codes "body") [] (codes "p=" ++ field) (ground (arith, h))

-- A payload that is not empty, carried by `build_osc99` for a field whose name has no semicolon
-- and no colon, both UTF-8 with no ESC and no BEL and within the cap, comes out of a new scanner
-- as one sequence, which reads as a notification with the payload in the title or the subtitle if
-- the field is named so, and in the body otherwise.
pub push-build_osc99 :
    (field payload : Bytes)
    → IsPayload field
    → IsPayload payload
    → Lacks b';' field
    → Lacks b':' field
    → payload ≢ []
    → length field + length payload + 6 ≤ max_pending
    → (push new (build_osc99 field payload)
        ≡ (new, record { code = 99; payload = payload99 field payload } ∷ []))
      × (parse_notification (record { code = 99; payload = payload99 field payload })
          ≡ some (fill_field field payload))
unfolding build_osc99 parse_notification keyed_fields
push-build_osc99 field payload h k lacks single ne fits = (
  rw (← append_assoc field (b';' ∷ payload) (esc ∷ b'\\' ∷ [])) (
      push-st_frame (codes "99;p=" ++ (field ++ (b';' ∷ payload))) _
        (ground (arith, IsClean-pair field payload h k)) (omega (arith, length_pair field payload))
        (parse_body-osc99 (payload99 field payload) (payload99-is_utf8 field payload h k))),
  ground (
    arith,
    split_once-append b';' (codes "p=" ++ field) payload (ground (arith, lacks)),
    target_field_named field single,
  ),
)
