-- ===== src/Import/Dedupe.antt =====
-- src-tauri/src/import/dedupe.rs, with the cookie of types.rs.
pub mod Survivors
use mathlib.Core.Option
use weftgrid.Base.{
  ℕ, zero, suc, ◌+◌, ◌≡◌, Bool, true, false, Option, none, some, List, [], ◌∷◌, ◌++◌, if◌then◌else◌,
  ltb, length, set, get_elem?, select, map, Bytes, bytes_discrete, ℕ_discrete, ◌||◌,
}
use weftgrid.Base.Maps.{lookup, insert}
use weftgrid.Base.Text.{contains}

pub record ImportedCookie : Type 0 where
  pub name : Bytes
  pub domain : Bytes
  pub path : Bytes
  pub value : Bytes
  pub secure : Bool
  pub http_only : Bool
  pub same_site : ℕ
  pub expires : Option ℕ

abbrev pub Key : Type 0
Key = Bytes × Bytes × Bytes

unfoldable pub key_discrete : Discrete Key
unfolding bytes_discrete
key_discrete = hlevel ℕ_discrete

abbrev pub dedupe_key : ImportedCookie → Key
dedupe_key c = (c.name, c.domain, c.path)

-- One more than the rank of the source, which starts at -1.
abbrev pub rank_of : Option ℕ → ℕ
rank_of none = 0
rank_of (some e) = e + 1

abbrev pub expiry_rank : ImportedCookie → ℕ
expiry_rank c = rank_of c.expires

-- `out[pos] = cookie`, if it expires later than what is there.
unfoldable pub replace_later :
    List ImportedCookie → ℕ → ImportedCookie → Option ImportedCookie → List ImportedCookie
replace_later out pos c none = out
replace_later out pos c (some e) =
    if ltb (expiry_rank e) (expiry_rank c) then set out pos c else out

-- One round of the loop, by what the index says of the cookie's key.
unfoldable pub dedupe_found :
    List (Key × ℕ)
    → List ImportedCookie
    → ImportedCookie
    → Option ℕ
    → List (Key × ℕ) × List ImportedCookie
unfolding replace_later
dedupe_found index out c none =
    (insert key_discrete (dedupe_key c) (length out) index, out ++ c ∷ [])
dedupe_found index out c (some pos) = (index, replace_later out pos c (get_elem? out pos))

unfoldable pub dedupe_loop :
    List (Key × ℕ) → List ImportedCookie → List ImportedCookie → List ImportedCookie
unfolding dedupe_found
dedupe_loop index out [] = out
dedupe_loop index out (c ∷ cs) =
    let r = dedupe_found index out c (lookup key_discrete (dedupe_key c) index) in
    dedupe_loop r.0 r.1 cs

unfoldable pub dedupe : List ImportedCookie → List ImportedCookie
unfolding dedupe_loop
dedupe cs = dedupe_loop [] [] cs

unfoldable pub any_in : Bytes → List Bytes → Bool
unfolding contains
any_in host [] = false
any_in host (n ∷ ns) = contains n host || any_in host ns

-- `to_lowercase` is that of the standard library.
unfoldable pub filter_domains :
    (Bytes → Bytes) → List ImportedCookie → List Bytes → List ImportedCookie
unfolding any_in
filter_domains to_lowercase cs [] = cs
filter_domains to_lowercase cs (d ∷ ds) =
    let needles = map to_lowercase (d ∷ ds) in
    select (λ c. any_in (to_lowercase c.domain) needles) cs
