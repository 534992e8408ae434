-- ===== src/Import/Dedupe/Survivors.antt =====
-- Which cookies are left: for each key the first of the latest, in the order of the keys.
pub mod Filtering
use mathlib.Core.Option
use weftgrid.Base.{
  ℕ, zero, suc, ◌+◌, ◌≡◌, ◌≢◌, refl, sym, ap, ◌∙◌, Bool, true, false, Option, none, some, List, [],
  ◌∷◌, ◌++◌, if◌then◌else◌, ltb, length, set, get_elem?, map, arith, ite, if_pos, if_neg,
  Option-cases, inl, inr, subst, All,
}
use weftgrid.Base.Maps.{lookup, insert, lookup-insert}
use weftgrid.Import.Dedupe.{
  ImportedCookie, Key, key_discrete, dedupe_key, rank_of, replace_later, dedupe_found, dedupe_loop,
  dedupe,
}

-- Whether the second expiry is strictly later than the first, a session cookie's being the earliest.
unfoldable pub is_later : Option ℕ → Option ℕ → Bool
is_later _ none = false
is_later none (some t) = true
is_later (some e) (some t) = ltb e t

-- The cookie that a key keeps when one more of that key comes.
abbrev pub newer : Option ImportedCookie → ImportedCookie → ImportedCookie
newer none c = c
newer (some e) c = if is_later e.expires c.expires then c else e

-- The order of the ranks is that of the expiries.
rank_of-is_later : (e t : Option ℕ) → ltb (rank_of e) (rank_of t) ≡ is_later e t
unfolding is_later
rank_of-is_later none none = ground arith
rank_of-is_later (some e) none = ground arith
rank_of-is_later none (some t) = ground arith
rank_of-is_later (some e) (some t) = ground arith

-- The cookie of a key, read from the input alone.
unfoldable pub best : Key → Option ImportedCookie → List ImportedCookie → Option ImportedCookie
best k o [] = o
best k o (c ∷ cs) = best k (ite (key_discrete (dedupe_key c) k) (some (newer o c)) o) cs

-- The first cookie with a key.
unfoldable pub find_key : Key → List ImportedCookie → Option ImportedCookie
find_key k [] = none
find_key k (c ∷ cs) = ite (key_discrete (dedupe_key c) k) (some c) (find_key k cs)

-- The place of a cookie among those kept so far.
place : ImportedCookie → List ImportedCookie → List ImportedCookie
place c [] = c ∷ []
place c (x ∷ xs) =
    ite (key_discrete (dedupe_key x) (dedupe_key c)) (newer (some x) c ∷ xs) (x ∷ place c xs)

place_each : List ImportedCookie → List ImportedCookie → List ImportedCookie
place_each out [] = out
place_each out (c ∷ cs) = place_each (place c out) cs

position : Key → List ImportedCookie → Option ℕ
position k [] = none
position k (x ∷ xs) =
    ite (key_discrete (dedupe_key x) k) (some 0) (Option.map (λ n. suc n) (position k xs))

-- What a round makes of the list.
settled : List ImportedCookie → ImportedCookie → Option ℕ → List ImportedCookie
settled out c none = out ++ c ∷ []
settled out c (some p) = replace_later out p c (get_elem? out p)

settled-suc :
    (x : ImportedCookie) (xs : List ImportedCookie) (c : ImportedCookie) (o : Option ℕ)
    → settled (x ∷ xs) c (Option.map (λ n. suc n) o) ≡ x ∷ settled xs c o
unfolding settled replace_later
settled-suc x xs c none = refl
settled-suc x xs c (some p) = elim (Option-cases (get_elem? xs p)) [
  | inl e ↦ rw e refl
  | inr (y, e) ↦ rw e (ground arith)
]

place-settled :
    (c : ImportedCookie) (out : List ImportedCookie)
    → settled out c (position (dedupe_key c) out) ≡ place c out
unfolding place position
place-settled c [] = unfold settled in refl
place-settled c (x ∷ xs) = elim (key_discrete (dedupe_key x) (dedupe_key c)) [
  | yes e ↦ rw (if_pos (key_discrete (dedupe_key x) (dedupe_key c)) e) (
      rw (if_pos (key_discrete (dedupe_key x) (dedupe_key c)) e)
        (unfold settled replace_later in rw (rank_of-is_later x.expires c.expires) (ground arith)))
  | no e ↦ rw (if_neg (key_discrete (dedupe_key x) (dedupe_key c)) e) (
      rw (if_neg (key_discrete (dedupe_key x) (dedupe_key c)) e)
        (settled-suc x xs c (position (dedupe_key c) xs) ∙ ap (◌∷◌ x) (place-settled c xs)))
]

find_key-place :
    (k : Key) (c : ImportedCookie) (out : List ImportedCookie)
    → find_key k (place c out)
      ≡ ite (key_discrete (dedupe_key c) k) (some (newer (find_key k out) c)) (find_key k out)
unfolding find_key place
find_key-place k c [] = refl
find_key-place k c (x ∷ xs) = ground (arith, find_key-place k c xs)

abbrev slot : ℕ → Option ℕ → ℕ
slot n none = n
slot n (some p) = p

position-place_self :
    (c : ImportedCookie) (out : List ImportedCookie)
    → position (dedupe_key c) (place c out) ≡ some (slot (length out) (position (dedupe_key c) out))
unfolding position place
position-place_self c [] = ground arith
position-place_self c (x ∷ xs) = ground (arith, position-place_self c xs)

position-place_ne :
    (k : Key) (c : ImportedCookie) (out : List ImportedCookie)
    → dedupe_key c ≢ k
    → position k (place c out) ≡ position k out
unfolding position place
position-place_ne k c [] h = ground arith
position-place_ne k c (x ∷ xs) h = ground (arith, position-place_ne k c xs h)

-- The index says where each key stands.
IsIndexed : List (Key × ℕ) → List ImportedCookie → Type 0
IsIndexed index out = (k : Key) → lookup key_discrete k index ≡ position k out

dedupe_found-place :
    (index : List (Key × ℕ)) (out : List ImportedCookie) (c : ImportedCookie) (o : Option ℕ)
    → position (dedupe_key c) out ≡ o
    → (dedupe_found index out c o).1 ≡ place c out
unfolding dedupe_found settled
dedupe_found-place index out c none h = rw h at (place-settled c out)
dedupe_found-place index out c (some p) h = rw h at (place-settled c out)

dedupe_found_self :
    (index : List (Key × ℕ)) (out : List ImportedCookie) (c : ImportedCookie) (o : Option ℕ)
    → IsIndexed index out
    → position (dedupe_key c) out ≡ o
    → lookup key_discrete (dedupe_key c) (dedupe_found index out c o).0
      ≡ position (dedupe_key c) (place c out)
unfolding dedupe_found IsIndexed
dedupe_found_self index out c none f h = ground (
  arith,
  lookup-insert key_discrete (dedupe_key c) (dedupe_key c) (length out) index,
  position-place_self c out,
)
dedupe_found_self index out c (some p) f h =
    ground (arith, f (dedupe_key c), position-place_self c out)

dedupe_found-other :
    (index : List (Key × ℕ)) (out : List ImportedCookie) (c : ImportedCookie) (o : Option ℕ)
    (k : Key)
    → IsIndexed index out
    → dedupe_key c ≢ k
    → lookup key_discrete k (dedupe_found index out c o).0 ≡ position k (place c out)
unfolding dedupe_found IsIndexed
dedupe_found-other index out c none k f n =
    rw (position-place_ne k c out n, lookup-insert)
      (rw (if_neg (key_discrete (dedupe_key c) k) n) (f k))
dedupe_found-other index out c (some p) k f n = rw (position-place_ne k c out n) (f k)

dedupe_found-IsIndexed :
    (index : List (Key × ℕ)) (out : List ImportedCookie) (c : ImportedCookie) (o : Option ℕ)
    → IsIndexed index out
    → position (dedupe_key c) out ≡ o
    → IsIndexed (dedupe_found index out c o).0 (place c out)
unfolding IsIndexed
dedupe_found-IsIndexed index out c o f h k = elim (key_discrete (dedupe_key c) k) [
  | yes e ↦
      subst (λ j. lookup key_discrete j (dedupe_found index out c o).0 ≡ position j (place c out)) e
        (dedupe_found_self index out c o f h)
  | no n ↦ dedupe_found-other index out c o k f n
]

dedupe_loop-place_each :
    (index : List (Key × ℕ)) (out cs : List ImportedCookie)
    → IsIndexed index out
    → dedupe_loop index out cs ≡ place_each out cs
unfolding dedupe_loop place_each
dedupe_loop-place_each index out [] f = refl
dedupe_loop-place_each index out (c ∷ cs) f =
    let o = lookup key_discrete (dedupe_key c) index in
    let known : position (dedupe_key c) out ≡ o = sym (unfold IsIndexed in f (dedupe_key c)) in
    rw (dedupe_found-place index out c o known) (
      dedupe_loop-place_each (dedupe_found index out c o).0 (place c out) cs
        (dedupe_found-IsIndexed index out c o f known))

dedupe-place_each : (cs : List ImportedCookie) → dedupe cs ≡ place_each [] cs
unfolding dedupe
dedupe-place_each cs =
    dedupe_loop-place_each [] [] cs (unfold IsIndexed lookup position in λ k. refl)

place_each-best :
    (k : Key) (out cs : List ImportedCookie)
    → find_key k (place_each out cs) ≡ best k (find_key k out) cs
unfolding place_each best
place_each-best k out [] = refl
place_each-best k out (c ∷ cs) = rw (← find_key-place k c out) (place_each-best k (place c out) cs)

-- The keys in the order in which they first come, added to those that are there.
unfoldable pub add_key : List Key → Key → List Key
add_key [] k = k ∷ []
add_key (j ∷ js) k = ite (key_discrete j k) (j ∷ js) (j ∷ add_key js k)

unfoldable pub firsts : List Key → List Key → List Key
unfolding add_key
firsts js [] = js
firsts js (k ∷ ks) = firsts (add_key js k) ks

keys-place :
    (c : ImportedCookie) (out : List ImportedCookie)
    → map dedupe_key (place c out) ≡ add_key (map dedupe_key out) (dedupe_key c)
unfolding place add_key
keys-place c [] = refl
keys-place c (x ∷ xs) = ground (arith, keys-place c xs)

keys-place_each :
    (out cs : List ImportedCookie)
    → map dedupe_key (place_each out cs) ≡ firsts (map dedupe_key out) (map dedupe_key cs)
unfolding place_each firsts
keys-place_each out [] = refl
keys-place_each out (c ∷ cs) =
    keys-place_each (place c out) cs ∙ ap (λ js. firsts js (map dedupe_key cs)) (keys-place c out)

-- `dedupe` leaves one cookie for each key of the input, in the order in which the keys first come.
pub keys-dedupe :
    (cs : List ImportedCookie) → map dedupe_key (dedupe cs) ≡ firsts [] (map dedupe_key cs)
keys-dedupe cs = rw (dedupe-place_each cs) (keys-place_each [] cs)

-- No key twice.
abbrev pub IsDistinct : List Key → Type 0
IsDistinct [] = Unit {0}
IsDistinct (k ∷ ks) = All (λ j. j ≢ k) ks × IsDistinct ks

add_key-All :
    (i k : Key) (js : List Key) → k ≢ i → All (λ j. j ≢ i) js → All (λ j. j ≢ i) (add_key js k)
unfolding add_key
add_key-All i k [] h a = (h, tt)
add_key-All i k (j ∷ js) h a = ground (arith, add_key-All i k js h a.1)

add_key-IsDistinct : (k : Key) (js : List Key) → IsDistinct js → IsDistinct (add_key js k)
unfolding add_key
add_key-IsDistinct k [] h = (tt, tt)
add_key-IsDistinct k (j ∷ js) h = elim (key_discrete j k) [
  | yes e ↦ rw (if_pos (key_discrete j k) e) h
  | no n ↦
      rw (if_neg (key_discrete j k) n)
        (add_key-All j k js (λ e. n (sym e)) h.0, add_key-IsDistinct k js h.1)
]

firsts-IsDistinct : (js ks : List Key) → IsDistinct js → IsDistinct (firsts js ks)
unfolding firsts
firsts-IsDistinct js [] h = h
firsts-IsDistinct js (k ∷ ks) h = firsts-IsDistinct (add_key js k) ks (add_key-IsDistinct k js h)

-- For each name, domain and path: what `dedupe` keeps is the cookie of the latest expiry among those
-- of that key in the input, the first of them if several are as late, a session cookie being the
-- earliest, and nothing where the input has no cookie of that key; and it keeps no two cookies of
-- one key.
pub find_key-dedupe :
    (k : Key) (cs : List ImportedCookie)
    → (find_key k (dedupe cs) ≡ best k none cs) × IsDistinct (map dedupe_key (dedupe cs))
find_key-dedupe k cs = (
  rw (dedupe-place_each cs) (unfold find_key in place_each-best k [] cs),
  rw (keys-dedupe cs) (firsts-IsDistinct [] (map dedupe_key cs) tt),
)
