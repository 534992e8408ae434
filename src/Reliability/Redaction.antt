-- ===== src/Reliability/Redaction.antt =====
-- src-tauri/src/reliability/redaction.rs: secrets are taken out of a log line. A position in the text
-- is the byte in front of it, if there is one, and the bytes from it on. The text is well-formed UTF-8,
-- so that a character is as long as its first byte says.
pub mod Values
pub mod Keys
pub mod Secrets
use weftgrid.Base.{
  ℕ, zero, suc, ◌+◌, ◌-◌, ◌≡◌, Bool, true, false, not, Option, none, some, List, [], ◌∷◌, ◌++◌,
  if◌then◌else◌, ◌==◌, leb, ltb, length, take, drop, map, Bytes, ◌||◌, ◌&&◌,
}
use weftgrid.Base.Text.{codes, starts_with, contains}

abbrev pub sensitive_keys : List (Bytes × Bytes)
sensitive_keys =
    (codes "set-cookie", codes "cookie")
    ∷ (codes "cookie", codes "cookie")
    ∷ (codes "access_token", codes "token")
    ∷ (codes "refresh_token", codes "token")
    ∷ (codes "id_token", codes "token")
    ∷ (codes "client_secret", codes "secret")
    ∷ (codes "api_key", codes "api-key")
    ∷ (codes "apikey", codes "api-key")
    ∷ (codes "api-key", codes "api-key")
    ∷ (codes "private_key", codes "private-key")
    ∷ (codes "session_id", codes "session")
    ∷ (codes "sessionid", codes "session")
    ∷ (codes "session-token", codes "session")
    ∷ (codes "token", codes "token")
    ∷ (codes "password", codes "password")
    ∷ (codes "passwd", codes "password")
    ∷ (codes "secret", codes "secret")
    ∷ []

abbrev pub Position : Type 0
Position = Option ℕ × Bytes

-- The position `n` bytes on.
unfoldable pub advance : ℕ → Position → Position
advance zero p = p
advance (suc n) (prev, []) = (prev, [])
advance (suc n) (prev, c ∷ cs) = advance n (some c, cs)

-- How many bytes from here on pass a test.
unfoldable pub run_length : (ℕ → Bool) → Bytes → ℕ
run_length test [] = 0
run_length test (c ∷ cs) = let rest = run_length test cs in if test c then suc rest else 0

abbrev pub to_lower : ℕ → ℕ
to_lower c = if leb b'A' c && leb c b'Z' then c + 32 else c

abbrev pub is_alphanumeric : ℕ → Bool
is_alphanumeric c =
    (leb b'a' c && leb c b'z') || ((leb b'A' c && leb c b'Z') || (leb b'0' c && leb c b'9'))

unfoldable pub at_word_start : Option ℕ → Bool
at_word_start none = true
at_word_start (some p) = not (is_alphanumeric p || (p == b'_' || p == b'-'))

abbrev pub continues_word : Bytes → Bool
continues_word [] = false
continues_word (c ∷ cs) = is_alphanumeric c || c == b'_'

-- `lower` is the text in lower case from the position on.
unfoldable pub match_keyword : Bytes → Bytes → Option ℕ
unfolding starts_with
match_keyword lower keyword =
    if starts_with keyword lower
    then (if continues_word (drop (length keyword) lower) then none else some (length keyword))
    else none

abbrev pub first_match : Bytes × Bytes → Option ℕ → Option (ℕ × Bytes) → Option (ℕ × Bytes)
first_match (key, name) (some n) rest = some (length key, name)
first_match (key, name) none rest = rest

unfoldable pub match_in : List (Bytes × Bytes) → Bytes → Option (ℕ × Bytes)
unfolding match_keyword
match_in [] lower = none
match_in (k ∷ ks) lower = first_match k (match_keyword lower k.0) (match_in ks lower)

abbrev pub match_sensitive_key : Bytes → Option (ℕ × Bytes)
match_sensitive_key lower = match_in sensitive_keys lower

abbrev pub is_separator : ℕ → Bool
is_separator c = c == b' ' || (c == 9 || (c == b':' || (c == b'=' || (c == 34 || c == 39))))

abbrev pub is_assignment : ℕ → Bool
is_assignment c = c == b':' || c == b'='

unfoldable pub any_byte : (ℕ → Bool) → Bytes → Bool
any_byte test [] = false
any_byte test (c ∷ cs) = test c || any_byte test cs

-- Where a value ends: white space, `;`, `,`, a quote, `&`, `}` or `]`.
abbrev pub ends_value : ℕ → Bool
ends_value c =
    c == b' '
    || (c == 9
        || (c == 13
            || (c == 10
                || (c == b';'
                    || (c == b','
                        || (c == 34 || (c == 39 || (c == b'&' || (c == b'}' || c == b']')))))))))

abbrev pub ends_header : ℕ → Bool
ends_header c = c == 13 || (c == 10 || (c == 34 || (c == 39 || (c == b'}' || c == b','))))

unfoldable pub skip_separators : Position → Position
unfolding run_length advance
skip_separators p = advance (run_length is_separator p.1) p

unfoldable pub skip_spaces : Position → Position
unfolding run_length advance
skip_spaces p = advance (run_length (λ c. c == b' ' || c == 9) p.1) p

unfoldable pub consume_value : Position → Position
unfolding run_length advance
consume_value p = advance (run_length (λ c. not (ends_value c)) p.1) p

unfoldable pub consume_to_line_end : Position → Position
unfolding run_length advance
consume_to_line_end p = advance (run_length (λ c. not (ends_header c)) p.1) p

-- `b >> 5 == 0b110` and `b >> 4 == 0b1110`
unfoldable pub next_char_len : ℕ → ℕ
next_char_len b =
    if ltb b 128
    then 1
    else if leb 192 b && ltb b 224
    then 2
    else if leb 224 b && ltb b 240
    then 3
    else 4

-- What is written at a position in place of the text, and where the scan goes on.
pub record Redacted : Type 0 where
  pub written : Bytes
  pub next : Position

abbrev pub copied : Position → Redacted
copied (prev, []) = record { written = []; next = (prev, []) }
copied (prev, c ∷ cs) = record {
  written = take (next_char_len c) (c ∷ cs);
  next = advance (next_char_len c) (prev, c ∷ cs);
}

-- After a key: its value goes if `:` or `=` is among the separators here.
unfoldable pub value_after : Bytes → Bytes → Position → Option Redacted
unfolding skip_separators any_byte consume_value
value_after key name sep =
    if any_byte is_assignment (take (run_length is_separator sep.1) sep.1)
    then some (record {
      written = key ++ codes ": <redacted:" ++ name ++ codes ">";
      next = consume_value (skip_separators sep);
    })
    else none

unfoldable pub value_redacted : Position → Option (ℕ × Bytes) → Option Redacted
unfolding value_after
value_redacted p none = none
value_redacted p (some (klen, name)) = value_after (take klen p.1) name (advance klen p)

abbrev pub or_copied : Position → Option Redacted → Redacted
or_copied p none = copied p
or_copied p (some r) = r

unfoldable pub key_step : Position → Redacted
unfolding at_word_start match_in value_redacted advance next_char_len
key_step p =
    or_copied p (
      if at_word_start p.0 then value_redacted p (match_sensitive_key (map to_lower p.1)) else none)

-- `bearer`, with what follows the word.
unfoldable pub bearer_redacted : Position → Option ℕ → Option Redacted
unfolding skip_spaces consume_value
bearer_redacted p none = none
bearer_redacted p (some n) =
    let j = advance 6 p in
    if ltb 0 (run_length (λ c. c == b' ' || c == 9) j.1)
    then some
        (record { written = codes "Bearer <redacted:token>"; next = consume_value (skip_spaces j) })
    else none

unfoldable pub authorization_redacted : Position → Option ℕ → Option Redacted
unfolding skip_separators consume_to_line_end bearer_redacted
authorization_redacted p (some n) = some (record {
  written = codes "authorization: <redacted:authorization>";
  next = consume_to_line_end (skip_separators (advance n p));
})
authorization_redacted p none =
    bearer_redacted p (match_keyword (map to_lower p.1) (codes "bearer"))

unfoldable pub header_step : Position → Redacted
unfolding at_word_start match_keyword authorization_redacted advance next_char_len
header_step p = or_copied p (
    if at_word_start p.0
    then authorization_redacted p (match_keyword (map to_lower p.1) (codes "authorization"))
    else none)

-- `while i < bytes.len()`: each round goes at least one byte on.
unfoldable pub scan : (Position → Redacted) → ℕ → Position → Bytes
scan step zero p = []
scan step (suc fuel) (prev, []) = []
scan step (suc fuel) (prev, c ∷ cs) =
    let r = step (prev, c ∷ cs) in r.written ++ scan step fuel r.next

unfoldable pub redact_authorization : Bytes → Bytes
unfolding scan header_step
redact_authorization input = scan header_step (length input) (none, input)

unfoldable pub redact_key_values : Bytes → Bytes
unfolding scan key_step
redact_key_values input = scan key_step (length input) (none, input)

-- The text before the first `needle`, and the text from it on.
abbrev cons_before : ℕ → Option (Bytes × Bytes) → Option (Bytes × Bytes)
cons_before c none = none
cons_before c (some (before, from)) = some (c ∷ before, from)

unfoldable pub find : Bytes → Bytes → Option (Bytes × Bytes)
unfolding starts_with
find needle [] = if starts_with needle [] then some ([], []) else none
find needle (c ∷ cs) =
    if starts_with needle (c ∷ cs) then some ([], c ∷ cs) else cons_before c (find needle cs)

abbrev pub pem_begin : Bytes
pem_begin = codes "-----BEGIN"

-- The line that a text begins with, and the text from its line feed on.
abbrev line_and_rest : Bytes → Option (Bytes × Bytes) → Bytes × Bytes
line_and_rest text none = (text, [])
line_and_rest text (some p) = p

unfoldable pub split_line : Bytes → Bytes × Bytes
unfolding find
split_line text = line_and_rest text (find (10 ∷ []) text)

-- What is left after the line with the closing anchor, nothing if there is none.
unfoldable pub after_block : Option (Bytes × Bytes) → Bytes
unfolding split_line
after_block none = []
after_block (some (body, from)) = (split_line from).1

-- A `-----BEGIN`: what is written, and the text that is left to scan.
unfoldable pub pem_block : Bytes → Bytes → Bytes × Bytes → Bytes × Bytes
unfolding find split_line after_block contains
pem_block before from (line, body) =
    if contains (codes "PRIVATE KEY") line
    then (before ++ codes "<redacted:ssh-private-key>", after_block (find (codes "-----END") body))
    else (before ++ pem_begin, drop (length pem_begin) from)

unfoldable pub pem_next : Bytes → Option (Bytes × Bytes) → Option (Bytes × Bytes)
unfolding pem_block
pem_next rest none = none
pem_next rest (some (before, from)) = some (pem_block before from (split_line from))

-- `while let Some(begin_at)`
unfoldable pub pem_loop : ℕ → Bytes → Bytes
unfolding pem_next
pem_loop zero rest = rest
pem_loop (suc fuel) rest = elim (pem_next rest (find pem_begin rest)) [
  | none ↦ rest
  | some (written, left) ↦ written ++ pem_loop fuel left
]

unfoldable pub redact_pem_blocks : Bytes → Bytes
unfolding pem_loop
redact_pem_blocks input = pem_loop (length input) input

unfoldable pub redact : Bytes → Bytes
unfolding redact_pem_blocks redact_authorization redact_key_values
redact input = redact_key_values (redact_authorization (redact_pem_blocks input))
