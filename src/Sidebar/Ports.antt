-- ===== src/Sidebar/Ports.antt =====
-- src-tauri/src/sidebar/port_scanner.rs: the listening ports in the output of lsof, ss and netstat.
use weftgrid.Base.{
  Bool, true, false, not, ◌&&◌, Option, none, some, List, [], ◌∷◌, ◌++◌, Bytes, ℕ, zero, suc, ◌+◌,
  leb, ◌==◌, if◌then◌else◌,
}
use weftgrid.Base.Sort.{sort_by}
use weftgrid.Base.Text.{codes, starts_with, contains, equal, parse_u16}
pub mod Batches

-- What is used of `str`.
pub record StrFunctions : Type 0 where
  pub lines : Bytes → List Bytes
  pub split_whitespace : Bytes → List Bytes
  pub trim_start : Bytes → Bytes

pub data ScanSource : Type 0 where
  lsof ss netstat : ScanSource

unfoldable pub nth : ℕ → List Bytes → Option Bytes
nth n [] = none
nth zero (x ∷ xs) = some x
nth (suc n) (x ∷ xs) = nth n xs

unfoldable pub reverse_onto : List Bytes → List Bytes → List Bytes
reverse_onto [] acc = acc
reverse_onto (x ∷ xs) acc = reverse_onto xs (x ∷ acc)

-- What is after the last `:`, none where there is none.
unfoldable pub after_last : Bytes → Option Bytes
after_last [] = none
after_last (c ∷ cs) = elim (after_last cs) [
  | some rest ↦ some rest
  | none ↦ if c == b':' then some cs else none
]

unfoldable pub non_zero : Option ℕ → Option ℕ
non_zero none = none
non_zero (some zero) = none
non_zero (some (suc p)) = some (suc p)

unfoldable pub port_of : Option Bytes → Option ℕ
unfolding non_zero
port_of none = none
port_of (some port) = non_zero (parse_u16 port)

unfoldable pub port_after_last_colon : Option Bytes → Option ℕ
unfolding port_of after_last
port_after_last_colon none = none
port_after_last_colon (some addr) = port_of (after_last addr)

unfoldable pub to_ascii_lowercase : Bytes → Bytes
to_ascii_lowercase [] = []
to_ascii_lowercase (c ∷ cs) =
    (if leb b'A' c && leb c b'Z' then c + 32 else c) ∷ to_ascii_lowercase cs

-- The columns of a row of `ss`.
unfoldable pub ss_columns : List Bytes → Option ℕ
unfolding nth port_after_last_colon to_ascii_lowercase
ss_columns [] = none
ss_columns (state ∷ cols) =
    if equal (to_ascii_lowercase state) (codes "listen")
    then port_after_last_colon (nth 2 cols)
    else none

unfoldable pub or_skip : Option ℕ → List ℕ → List ℕ
or_skip none ps = ps
or_skip (some p) ps = p ∷ ps

-- `dedup` of the ports after `p`.
unfoldable pub dedup_after : ℕ → List ℕ → List ℕ
dedup_after p [] = []
dedup_after p (q ∷ ps) =
    let rest = dedup_after q ps in if p == q then dedup_after p ps else q ∷ rest

unfoldable pub dedup : List ℕ → List ℕ
unfolding dedup_after
dedup [] = []
dedup (p ∷ ps) = p ∷ dedup_after p ps

unfoldable pub dedup_sorted : List ℕ → List ℕ
unfolding dedup
dedup_sorted ports = dedup (sort_by leb ports)

unfoldable pub flatten : List (List ℕ) → List ℕ
flatten [] = []
flatten (batch ∷ batches) = batch ++ flatten batches

unfoldable pub coalesce : List (List ℕ) → List ℕ
unfolding dedup_sorted flatten
coalesce batches = dedup_sorted (flatten batches)

module _ (str : StrFunctions) where
  unfoldable pub parse_lsof_line : Bytes → Option ℕ
  unfolding nth reverse_onto port_after_last_colon
  parse_lsof_line line =
      if contains (codes "(LISTEN)") line
      then port_after_last_colon (nth 1 (reverse_onto (str.split_whitespace line) []))
      else none

  unfoldable pub parse_ss_line : Bytes → Option ℕ
  unfolding ss_columns
  parse_ss_line line = ss_columns (str.split_whitespace line)

  unfoldable pub parse_netstat_line : Bytes → Option ℕ
  unfolding nth port_after_last_colon
  parse_netstat_line line =
      let trimmed = str.trim_start line in
      if starts_with (codes "TCP") trimmed && contains (codes "LISTENING") line
      then port_after_last_colon (nth 1 (str.split_whitespace trimmed))
      else none

  unfoldable pub parse_line : ScanSource → Bytes → Option ℕ
  unfolding parse_lsof_line parse_ss_line parse_netstat_line
  parse_line lsof line = parse_lsof_line line
  parse_line ss line = parse_ss_line line
  parse_line netstat line = parse_netstat_line line

  unfoldable pub ports_in : ScanSource → List Bytes → List ℕ
  unfolding parse_line or_skip
  ports_in source [] = []
  ports_in source (line ∷ lines) = or_skip (parse_line source line) (ports_in source lines)

  unfoldable pub parse_scan : ScanSource → Bytes → List ℕ
  unfolding ports_in dedup_sorted
  parse_scan source output = dedup_sorted (ports_in source (str.lines output))

  unfoldable pub parse_scan_gated : Bool → ScanSource → Bytes → Option (List ℕ)
  unfolding parse_scan
  parse_scan_gated enabled source output = if enabled then some (parse_scan source output) else none
