-- ===== src/Notify/Manager/Invariant.antt =====
-- The store stays one notification for each pane, each with its own arrival number.
use weftgrid.Base.{
  ℕ, ◌+◌, ◌%◌, ◌^◌, ◌<◌, ◌≤◌, ◌≡◌, ◌≢◌, refl, sym, Option, none, some, List, [], ◌∷◌, if_pos,
  if_neg, arith, All, bytes_discrete, length, Bool-cases, inl, inr, subst,
}
use weftgrid.Base.Maps.{
  lookup, insert, remove, IsMap, Absent, insert-IsMap, insert-All, remove-IsMap, remove-All,
  lookup-All,
}
use weftgrid.Notify.Osc.{ParsedNotification}
use weftgrid.Notify.Manager.{
  PaneKey, Notification, Manager, new, record_parsed, mark_found, mark_read, clear, clear_all,
}

abbrev pub Entries : Type 0
Entries = List (PaneKey × Notification)

-- No two notifications arrived at the same time.
abbrev pub SeqsDistinct : Entries → Type 0
SeqsDistinct [] = Unit {0}
SeqsDistinct ((_, n) ∷ m) = All (λ e. e.1.seq ≢ n.seq) m × SeqsDistinct m

abbrev pub Fits : ℕ → PaneKey × Notification → Type 0
Fits next e = (e.1.pane_id ≡ e.0) × (e.1.seq < next)

pub record IsWellFormed (m : Manager) : Type 0 where
  pub one_each : IsMap m.latest
  pub entries_fit : All (Fits m.next_seq) m.latest
  pub seqs_distinct : SeqsDistinct m.latest

abbrev Clear : PaneKey → ℕ → PaneKey × Notification → Type 0
Clear k seq e = e.0 ≢ k → e.1.seq ≢ seq

insert-SeqsDistinct :
    (k : PaneKey) (n : Notification) (m : Entries)
    → All (Clear k n.seq) m
    → IsMap m
    → SeqsDistinct m
    → SeqsDistinct (insert bytes_discrete k n m)
unfolding insert
insert-SeqsDistinct k n [] c u d = (tt, tt)
insert-SeqsDistinct k n ((j, w) ∷ m) c u d = elim (bytes_discrete j k) [
  | yes e ↦ rw (if_pos _ e) (clear_all_but m c.1 (subst (λ x. Absent x m) e u.0), d.1)
  | no e ↦ rw (if_neg _ e) (
    insert-All bytes_discrete (λ x. x.1.seq ≢ w.seq) k n m (λ h. c.0 e (sym h)) d.0,
    insert-SeqsDistinct k n m c.1 u.1 d.1,
  )
]
  where
    clear_all_but :
        (m : Entries) → All (Clear k n.seq) m → Absent k m → All (λ x. x.1.seq ≢ n.seq) m
    clear_all_but [] c a = tt
    clear_all_but (x ∷ m) c a = (c.0 a.0, clear_all_but m c.1 a.1)

Clear-of_Fits : (k : PaneKey) (next : ℕ) (m : Entries) → All (Fits next) m → All (Clear k next) m
Clear-of_Fits k next [] f = tt
Clear-of_Fits k next (e ∷ m) f = (λ _. omega arith, Clear-of_Fits k next m f.1)

Clear-of_distinct :
    (k : PaneKey) (s : ℕ) (m : Entries) → All (λ e. e.1.seq ≢ s) m → All (Clear k s) m
Clear-of_distinct k s [] f = tt
Clear-of_distinct k s (e ∷ m) f = (λ _. f.0, Clear-of_distinct k s m f.1)

-- The arrival number of the entry found is no other entry's.
Clear-of_found :
    (k : PaneKey) (n : Notification) (m : Entries)
    → lookup bytes_discrete k m ≡ some n
    → SeqsDistinct m
    → All (Clear k n.seq) m
unfolding lookup
Clear-of_found k n [] e d = tt
Clear-of_found k n ((j, w) ∷ m) e d = elim (bytes_discrete j k) [
  | yes h ↦ (
    λ p. absurd (p h),
    Clear-of_distinct k n.seq m
        (subst (λ (x : ℕ). All (λ y. y.1.seq ≢ x) m) {x = w.seq} {y = n.seq} (ground arith) d.0),
  )
  | no h ↦
      let later : lookup bytes_discrete k m ≡ some n = ground arith in
      (
        λ _ q. lookup-All bytes_discrete (λ y. y.1.seq ≢ w.seq) k n m d.0 later (sym q),
        Clear-of_found k n m later d.1,
      )
]

Fits-mono : (a b : ℕ) (m : Entries) → a ≤ b → All (Fits a) m → All (Fits b) m
Fits-mono a b [] h f = tt
Fits-mono a b (e ∷ m) h f = ((f.0.0, omega arith), Fits-mono a b m h f.1)

pub new-IsWellFormed : IsWellFormed new
new-IsWellFormed = record { one_each = tt; entries_fit = tt; seqs_distinct = tt }

-- While arrival numbers do not wrap.
pub record_parsed-IsWellFormed :
    (m : Manager) (pane : PaneKey) (id : ℕ) (parsed : ParsedNotification)
    → m.next_seq + 1 < 2 ^ 64
    → IsWellFormed m
    → IsWellFormed (record_parsed m pane id parsed).0
unfolding record_parsed
record_parsed-IsWellFormed m pane id parsed h v = record {
  one_each = insert-IsMap bytes_discrete pane _ m.latest v.one_each;
  entries_fit =
      insert-All bytes_discrete (Fits ((m.next_seq + 1) % 2 ^ 64)) pane _ m.latest
        (refl, omega arith)
        (Fits-mono m.next_seq ((m.next_seq + 1) % 2 ^ 64) m.latest (omega arith) v.entries_fit);
  seqs_distinct =
      insert-SeqsDistinct pane _ m.latest (Clear-of_Fits pane m.next_seq m.latest v.entries_fit)
        v.one_each v.seqs_distinct;
}

mark_found-IsWellFormed :
    (m : Manager) (pane : PaneKey) (found : Option Notification)
    → lookup bytes_discrete pane m.latest ≡ found
    → IsWellFormed m
    → IsWellFormed (mark_found m pane found).0
unfolding mark_found
mark_found-IsWellFormed m pane none e v = v
mark_found-IsWellFormed m pane (some n) e v = elim (Bool-cases n.is_read) [
  | inl h ↦ rw (h, mark_found) v
  | inr h ↦
      rw (h, mark_found)
        (record {
          one_each = insert-IsMap bytes_discrete pane _ m.latest v.one_each;
          entries_fit =
              insert-All bytes_discrete (Fits m.next_seq) pane _ m.latest
                (lookup-All bytes_discrete (Fits m.next_seq) pane n m.latest v.entries_fit e)
                v.entries_fit;
          seqs_distinct =
              insert-SeqsDistinct pane _ m.latest (Clear-of_found pane n m.latest e v.seqs_distinct)
                v.one_each v.seqs_distinct;
        })
]

remove-SeqsDistinct :
    (k : PaneKey) (m : Entries) → SeqsDistinct m → SeqsDistinct (remove bytes_discrete k m)
unfolding remove
remove-SeqsDistinct k [] d = tt
remove-SeqsDistinct k ((j, w) ∷ m) d = elim (bytes_discrete j k) [
  | yes e ↦ rw (if_pos _ e) (remove-SeqsDistinct k m d.1)
  | no e ↦
      rw (if_neg _ e)
        (remove-All bytes_discrete (λ x. x.1.seq ≢ w.seq) k m d.0, remove-SeqsDistinct k m d.1)
]

clear-IsWellFormed : (m : Manager) (pane : PaneKey) → IsWellFormed m → IsWellFormed (clear m pane).0
unfolding clear
clear-IsWellFormed m pane v = record {
  one_each = remove-IsMap bytes_discrete pane m.latest v.one_each;
  entries_fit = remove-All bytes_discrete (Fits m.next_seq) pane m.latest v.entries_fit;
  seqs_distinct = remove-SeqsDistinct pane m.latest v.seqs_distinct;
}

-- The calls that change the store.
pub data Call : Type 0 where
  records : PaneKey → ℕ → ParsedNotification → Call
  marks_read clears : PaneKey → Call
  clears_all : Call

unfoldable pub call : Manager → Call → Manager
call m (records pane id parsed) = (record_parsed m pane id parsed).0
call m (marks_read pane) = (mark_read m pane).0
call m (clears pane) = (clear m pane).0
call m clears_all = clear_all m

unfoldable pub calls : Manager → List Call → Manager
calls m [] = m
calls m (c ∷ cs) = calls (call m c) cs

call-IsWellFormed :
    (m : Manager) (c : Call) → m.next_seq + 1 < 2 ^ 64 → IsWellFormed m → IsWellFormed (call m c)
unfolding call mark_read clear_all
call-IsWellFormed m (records pane id parsed) h v = record_parsed-IsWellFormed m pane id parsed h v
call-IsWellFormed m (marks_read pane) h v = mark_found-IsWellFormed m pane _ refl v
call-IsWellFormed m (clears pane) h v = clear-IsWellFormed m pane v
call-IsWellFormed m clears_all h v = record { one_each = tt; entries_fit = tt; seqs_distinct = tt }

next_seq-call-le :
    (m : Manager) (c : Call) → m.next_seq + 1 < 2 ^ 64 → (call m c).next_seq ≤ m.next_seq + 1
unfolding call record_parsed mark_read mark_found clear clear_all
next_seq-call-le m (records pane id parsed) h = omega arith
next_seq-call-le m (marks_read pane) h = ground arith
next_seq-call-le m (clears pane) h = omega arith
next_seq-call-le m clears_all h = omega arith

-- After any calls on a well-formed store, as long as the arrival numbers have not wrapped, the
-- store is well-formed: it holds at most one notification for each pane, filed under that pane,
-- and their arrival numbers are distinct and below the next one.
pub calls-IsWellFormed :
    (m : Manager) (cs : List Call)
    → m.next_seq + length cs < 2 ^ 64
    → IsWellFormed m
    → IsWellFormed (calls m cs)
unfolding calls
calls-IsWellFormed m [] h v = v
calls-IsWellFormed m (c ∷ cs) h v =
    calls-IsWellFormed (call m c) cs (omega (arith, next_seq-call-le m c (omega arith)))
      (call-IsWellFormed m c (omega arith) v)
