-- ===== src/Tests/Sidebar.antt =====
-- Tests of the sidebar track.
use weftgrid.Base.{
  ℕ, ◌≡◌, refl, false, none, Bytes, List, ◌==◌, if◌then◌else◌, [], ◌∷◌, ◌++◌, arith,
}
use weftgrid.Base.Text.{codes}
use weftgrid.Sidebar.{SidebarState, default_state, entry_of}
use weftgrid.Sidebar.Ports.{StrFunctions, ss, parse_scan, parse_scan_gated, coalesce}
use weftgrid.Sidebar.Ports.Batches.{IsAscending, has, is_read, parse_scan-IsAscending}
use weftgrid.Sidebar.Tail.{newest, log_all, log_all-newest}

abbrev empty_state : SidebarState ℕ
empty_state = default_state ℕ

log_all-newest_example :
    (entry_of (log_all empty_state (codes "p") (codes "a" ∷ codes "b" ∷ [])) (codes "p")).log_tail
    ≡ newest ([] ++ codes "a" ∷ codes "b" ∷ [])
unfolding entry_of weftgrid.Base.Maps.lookup
log_all-newest_example =
    log_all-newest empty_state (codes "p") (codes "a" ∷ codes "b" ∷ []) (omega arith)

unfoldable words_from : Bytes → Bytes → List Bytes
words_from [] word = word ∷ []
words_from (c ∷ cs) word =
    let rest = words_from cs (word ++ (c ∷ [])) in
    if c == b' ' then word ∷ words_from cs [] else rest

abbrev str : StrFunctions
str = record {
  lines = λ text. text ∷ [];
  split_whitespace = λ text. words_from text [];
  trim_start = λ text. text;
}

abbrev row : Bytes
row = codes "LISTEN 0 128 [::]:9229 *:0"

parse_scan_test : parse_scan str ss row ≡ 9229 ∷ []
unfolding parse_scan words_from weftgrid.Base.Sort.sort_by weftgrid.Base.Text.equal
    weftgrid.Base.Text.parse_u16
parse_scan_test = refl

coalesce_test : coalesce ((80 ∷ 22 ∷ []) ∷ (443 ∷ 22 ∷ []) ∷ []) ≡ 22 ∷ 80 ∷ 443 ∷ []
unfolding coalesce weftgrid.Base.Sort.sort_by
coalesce_test = refl

parse_scan-IsAscending_example :
    IsAscending (parse_scan str ss row)
    × (has 9229 (parse_scan str ss row) ≡ is_read str 9229 ss (row ∷ []))
    × (parse_scan_gated str false ss row ≡ none)
parse_scan-IsAscending_example = parse_scan-IsAscending str ss row 9229
