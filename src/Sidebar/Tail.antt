-- ===== src/Sidebar/Tail.antt =====
-- The retained log lines of a panel.
use weftgrid.Base.{
  ℕ, zero, suc, ◌+◌, ◌-◌, ◌≤◌, ◌≡◌, refl, sym, ap, subst, append-nil, ◌∙◌, List, [], ◌∷◌, ◌++◌,
  arith, ltb, Bytes, Bool-cases, inl, inr, length, drop, length-append, length-drop, append_assoc,
  bytes_discrete,
}
use weftgrid.Base.Maps.{lookup-insert_self}
use weftgrid.Sidebar.{SidebarState, log, push_line, entry_of, put_entry, record_transient}

-- The last 100 lines.
abbrev pub newest : List Bytes → List Bytes
newest lines = drop (length lines - 100) lines

push_line-newest :
    (tail : List Bytes) (line : Bytes) → push_line tail line ≡ newest (tail ++ line ∷ [])
unfolding push_line
push_line-newest tail line =
    let t = tail ++ line ∷ [] in
    elim (Bool-cases (ltb 100 (length t))) [
      | inl e ↦ rw e refl
      | inr e ↦ let all : length t - 100 ≡ 0 = ground (arith, e) in rw (e, all) refl
    ]

drop-nil : (n : ℕ) → drop {A = Bytes} n [] ≡ []
drop-nil zero = refl
drop-nil (suc n) = refl

drop-drop : (m n : ℕ) (xs : List Bytes) → drop m (drop n xs) ≡ drop (n + m) xs
drop-drop m zero xs = ap (λ k. drop k xs) (omega arith)
drop-drop m (suc n) [] = drop-nil m ∙ sym (drop-nil (suc n + m))
drop-drop m (suc n) (x ∷ xs) =
    let index : suc (n + m) ≡ suc n + m = omega arith in
    drop-drop m n xs ∙ ap (λ k. drop k (x ∷ xs)) index

drop-append : (n : ℕ) (xs ys : List Bytes) → n ≤ length xs → drop n (xs ++ ys) ≡ drop n xs ++ ys
drop-append zero xs ys h = refl
drop-append (suc n) [] ys h = ground (arith, h)
drop-append (suc n) (x ∷ xs) ys h = drop-append n xs ys (omega (arith, h))

newest-append : (xs ys : List Bytes) → newest (newest xs ++ ys) ≡ newest (xs ++ ys)
newest-append xs ys =
    let d = length xs - 100 in
    let front = drop-append d xs ys (omega arith) in
    let index : d + (length (newest xs ++ ys) - 100) ≡ length (xs ++ ys) - 100 =
      omega (arith, length-append (newest xs) ys, length-append xs ys, length-drop d xs) in
    ap (drop (length (newest xs ++ ys) - 100)) (sym front)
    ∙ drop-drop (length (newest xs ++ ys) - 100) d (xs ++ ys)
    ∙ ap (λ k. drop k (xs ++ ys)) index

newest-short : (xs : List Bytes) → length xs ≤ 100 → newest xs ≡ xs
newest-short xs h = let index : length xs - 100 ≡ 0 = omega (arith, h) in ap (λ k. drop k xs) index

length-newest-le : (xs : List Bytes) → length (newest xs) ≤ 100
length-newest-le xs = omega (arith, length-drop (length xs - 100) xs)

module _ {F : Type 0} where
  -- The lines of a panel's log, one after another.
  unfoldable pub log_all : SidebarState F → Bytes → List Bytes → SidebarState F
  unfolding record_transient
  log_all st panel [] = st
  log_all st panel (l ∷ ls) = log_all (record_transient st panel (log l)) panel ls

  entry_of-log :
      (st : SidebarState F) (panel line : Bytes)
      → (entry_of (record_transient st panel (log line)) panel).log_tail
        ≡ newest ((entry_of st panel).log_tail ++ line ∷ [])
  unfolding entry_of record_transient put_entry
  entry_of-log st panel line =
      rw
        (lookup-insert_self bytes_discrete panel
          (record (entry_of st panel) { log_tail = push_line (entry_of st panel).log_tail line })
          st.transient)
        (push_line-newest (entry_of st panel).log_tail line)

  -- However many lines a panel with at most 100 kept lines logs, it keeps the newest 100 of those
  -- it had kept and those it logged, in order.
  pub log_all-newest :
      (st : SidebarState F) (panel : Bytes) (lines : List Bytes)
      → length (entry_of st panel).log_tail ≤ 100
      → (entry_of (log_all st panel lines) panel).log_tail
        ≡ newest ((entry_of st panel).log_tail ++ lines)
  unfolding log_all
  log_all-newest st panel [] h = sym (
      ap newest (append-nil (entry_of st panel).log_tail)
      ∙ newest-short (entry_of st panel).log_tail h)
  log_all-newest st panel (l ∷ ls) h =
      let tail = (entry_of st panel).log_tail in
      let now = entry_of-log st panel l in
      let short = subst (λ t. length t ≤ 100) (sym now) (length-newest-le (tail ++ l ∷ [])) in
      log_all-newest (record_transient st panel (log l)) panel ls short
      ∙ ap (λ t. newest (t ++ ls)) now
      ∙ newest-append (tail ++ l ∷ []) ls
      ∙ ap newest (append_assoc tail (l ∷ []) ls)
