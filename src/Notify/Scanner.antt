-- ===== src/Notify/Scanner.antt =====
-- src-tauri/src/notify/scanner.rs: the OSC extractor, one byte at a time.
pub mod Chunks
pub mod Bounds
pub mod Frames
use weftgrid.Base.{
  ℕ, Bool, Option, none, some, List, [], ◌∷◌, ◌++◌, ◌==◌, ltb, if◌then◌else◌, Bytes, length,
}
use weftgrid.Base.Text.{split_once, parse_u16, from_utf8_lossy}

abbrev pub esc : ℕ
esc = 0x1b

abbrev pub bel : ℕ
bel = 0x07

abbrev pub osc_introducer : ℕ
osc_introducer = b']'

abbrev pub st_final : ℕ
st_final = b'\\'

abbrev pub max_pending : ℕ
max_pending = 8192

pub record RawOsc : Type 0 where
  pub code : ℕ
  pub payload : Bytes

pub data State : Type 0 where
  idle esc_armed in_body body_esc : State

pub record OscScanner : Type 0 where
  pub state : State
  pub body : Bytes

abbrev pub new : OscScanner
new = record { state = idle; body = [] }

abbrev pub reset : OscScanner → OscScanner
reset s = record s { state = idle; body = [] }

-- `Some(code)` only where `code_str.parse()` succeeds
with_code : Option ℕ → Bytes → Option RawOsc
with_code none d = none
with_code (some c) d = some (record { code = c; payload = d })

split_body : Option (Bytes × Bytes) → Option RawOsc
unfolding with_code
split_body none = none
split_body (some (code_str, d)) = with_code (parse_u16 code_str) d

unfoldable pub parse_body : Bytes → Option RawOsc
unfolding split_body
parse_body body = split_body (split_once b';' (from_utf8_lossy body))

unfoldable pub accumulate : OscScanner → ℕ → OscScanner
accumulate s b =
    let grown = record s { body = s.body ++ b ∷ [] } in
    if ltb max_pending (length grown.body) then reset grown else grown

-- `out.push(osc)` if there is one
abbrev pub push_found : List RawOsc → Option RawOsc → List RawOsc
push_found out none = out
push_found out (some osc) = out ++ osc ∷ []

unfoldable pub finish : OscScanner → List RawOsc → OscScanner × List RawOsc
finish s out = (reset s, push_found out (parse_body s.body))

-- One turn of the loop in `push`: the scanner and `out` behind byte `b`.
unfoldable pub scan_byte : State → OscScanner → List RawOsc → ℕ → OscScanner × List RawOsc
unfolding finish accumulate
scan_byte idle s out b = (if b == esc then record s { state = esc_armed } else s, out)
scan_byte esc_armed s out b =
    if b == osc_introducer
    then (record s { state = in_body; body = [] }, out)
    else if b == esc
    then (s, out)
    else (record s { state = idle }, out)
scan_byte in_body s out b =
    if b == bel
    then finish s out
    else if b == esc
    then (record s { state = body_esc }, out)
    else (accumulate s b, out)
scan_byte body_esc s out b =
    if b == st_final
    then finish s out
    else if b == esc
    then (record s { state = esc_armed; body = [] }, out)
    else (record s { state = idle; body = [] }, out)

unfoldable pub scan_loop : OscScanner → List RawOsc → Bytes → OscScanner × List RawOsc
scan_loop s out [] = (s, out)
scan_loop s out (b ∷ bs) = scan_loop (scan_byte s.state s out b).0 (scan_byte s.state s out b).1 bs

-- `push`: the scanner afterwards, and the sequences that completed.
unfoldable pub push : OscScanner → Bytes → OscScanner × List RawOsc
unfolding scan_loop
push s bytes = scan_loop s [] bytes
