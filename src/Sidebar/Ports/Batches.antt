-- ===== src/Sidebar/Ports/Batches.antt =====
-- src-tauri/src/sidebar/port_scanner.rs: a batch is ascending, with the ports of the scans and no others.
use weftgrid.Base.{
  ◌≡◌, refl, ap, ◌∙◌, Bool, Option, none, some, Bytes, true, false, List, [], ◌∷◌, ◌++◌, ℕ, ◌<◌,
  All, All-weaken, arith, leb, ◌==◌, if◌then◌else◌, Bool-cases, inl, inr,
}
use weftgrid.Base.Sort.{place, sort_by, IsSorted, sort_by-IsSorted}
use weftgrid.Sidebar.Ports.{
  StrFunctions, ScanSource, dedup_after, dedup, dedup_sorted, flatten, coalesce, or_skip,
  parse_line, ports_in, parse_scan, parse_scan_gated,
}

pub has : ℕ → List ℕ → Bool
has p [] = false
has p (q ∷ ps) = if p == q then true else has p ps

-- Each port is below all that follow it.
pub IsAscending : List ℕ → Type 0
IsAscending [] = Unit {0}
IsAscending (p ∷ ps) = All (λ q. p < q) ps × IsAscending ps

has-place : (p x : ℕ) (l : List ℕ) → has p (place leb x l) ≡ has p (x ∷ l)
unfolding place has
has-place p x [] = refl
has-place p x (y ∷ l) = ground (arith, has-place p x l)

has-sort_by : (p : ℕ) (l : List ℕ) → has p (sort_by leb l) ≡ has p l
unfolding sort_by has
has-sort_by p [] = refl
has-sort_by p (x ∷ l) = ground (arith, has-place p x (sort_by leb l), has-sort_by p l)

has-dedup_after : (p x : ℕ) (l : List ℕ) → has p (x ∷ dedup_after x l) ≡ has p (x ∷ l)
unfolding dedup_after has
has-dedup_after p x [] = refl
has-dedup_after p x (y ∷ l) = ground (arith, has-dedup_after p x l, has-dedup_after p y l)

dedup_after-above :
    (x : ℕ) (l : List ℕ)
    → IsSorted leb (x ∷ l)
    → All (λ q. x < q) (dedup_after x l) × IsAscending (dedup_after x l)
unfolding dedup_after IsAscending
dedup_after-above x [] s = (tt, tt)
dedup_after-above x (y ∷ l) s = elim (Bool-cases (x == y)) [
  | inl e ↦ rw e (dedup_after-above x l (s.0.1, s.1.1))
  | inr e ↦
      let below : x < y = ground (arith, e, s.0.0) in
      let rest = dedup_after-above y l s.1 in
      rw e (
        (below, All-weaken (λ z h. omega (arith, below, h)) (dedup_after y l) rest.0),
        (rest.0, rest.1),
      )
]

leb_total : (x y : ℕ) → leb x y ≡ false → leb y x ≡ true
leb_total x y h = ground (arith, h)

leb_trans : (x y z : ℕ) → leb x y ≡ true → leb y z ≡ true → leb x z ≡ true
leb_trans x y z h k = ground (arith, h, k)

dedup-IsAscending : (l : List ℕ) → IsSorted leb l → IsAscending (dedup l)
unfolding dedup IsAscending
dedup-IsAscending [] s = tt
dedup-IsAscending (x ∷ l) s = dedup_after-above x l s

has-dedup : (p : ℕ) (l : List ℕ) → has p (dedup l) ≡ has p l
unfolding dedup
has-dedup p [] = refl
has-dedup p (x ∷ l) = has-dedup_after p x l

-- The batch of any ports is ascending, and has a port if and only if they have it.
pub dedup_sorted-IsAscending :
    (ports : List ℕ) (p : ℕ)
    → IsAscending (dedup_sorted ports) × (has p (dedup_sorted ports) ≡ has p ports)
unfolding dedup_sorted
dedup_sorted-IsAscending ports p = (
  dedup-IsAscending (sort_by leb ports) (sort_by-IsSorted leb leb_total leb_trans ports),
  has-dedup p (sort_by leb ports) ∙ has-sort_by p ports,
)

-- The port is in one of the batches.
pub has_any : ℕ → List (List ℕ) → Bool
has_any p [] = false
has_any p (batch ∷ batches) = if has p batch then true else has_any p batches

has-append : (p : ℕ) (xs ys : List ℕ) → has p (xs ++ ys) ≡ (if has p xs then true else has p ys)
unfolding has
has-append p [] ys = refl
has-append p (x ∷ xs) ys = ground (arith, has-append p xs ys)

has-flatten : (p : ℕ) (batches : List (List ℕ)) → has p (flatten batches) ≡ has_any p batches
unfolding flatten has_any has
has-flatten p [] = refl
has-flatten p (batch ∷ batches) =
    has-append p batch (flatten batches)
    ∙ ap (λ b. if has p batch then true else b) (has-flatten p batches)

-- Batches coalesce into one that is ascending, with no port twice, and that has a port if and only if
-- one of them has it.
pub coalesce-IsAscending :
    (batches : List (List ℕ)) (p : ℕ)
    → IsAscending (coalesce batches) × (has p (coalesce batches) ≡ has_any p batches)
unfolding coalesce
coalesce-IsAscending batches p =
    let r = dedup_sorted-IsAscending (flatten batches) p in (r.0, r.1 ∙ has-flatten p batches)

pub is_port : ℕ → Option ℕ → Bool
is_port p none = false
is_port p (some q) = p == q

has-or_skip :
    (p : ℕ) (o : Option ℕ) (ps : List ℕ)
    → has p (or_skip o ps) ≡ (if is_port p o then true else has p ps)
unfolding or_skip has is_port
has-or_skip p none ps = refl
has-or_skip p (some q) ps = refl

-- Some line is read as the port.
pub is_read : StrFunctions → ℕ → ScanSource → List Bytes → Bool
is_read str p source [] = false
is_read str p source (line ∷ rest) =
    if is_port p (parse_line str source line) then true else is_read str p source rest

module _ (str : StrFunctions) where
  has-ports_in :
      (p : ℕ) (source : ScanSource) (rows : List Bytes)
      → has p (ports_in str source rows) ≡ is_read str p source rows
  unfolding ports_in is_read has
  has-ports_in p source [] = refl
  has-ports_in p source (row ∷ rows) =
      has-or_skip p (parse_line str source row) (ports_in str source rows)
      ∙ ap (λ b. if is_port p (parse_line str source row) then true else b)
          (has-ports_in p source rows)

  -- The ports of a scan are ascending, with no port twice, and have a port if and only if a line of
  -- the output is read as it; with the toggle off there is no scan.
  pub parse_scan-IsAscending :
      (source : ScanSource) (output : Bytes) (p : ℕ)
      → IsAscending (parse_scan str source output)
        × (has p (parse_scan str source output) ≡ is_read str p source (str.lines output))
        × (parse_scan_gated str false source output ≡ none)
  unfolding parse_scan parse_scan_gated
  parse_scan-IsAscending source output p =
      let r = dedup_sorted-IsAscending (ports_in str source (str.lines output)) p in
      (r.0, r.1 ∙ has-ports_in p source (str.lines output), refl)
