-- ===== src/Ssh/HostKey.antt =====
-- src-tauri/src/ssh/host_key.rs: the fingerprint of each host is trusted on first use.
use weftgrid.Base.{
  ◌≡◌, ◌↔◌, refl, Bool, true, false, Option, none, some, List, [], ◌∷◌, Bytes, bytes_discrete,
  if_pos, if_neg,
}
use weftgrid.Base.Maps.{lookup, insert, lookup-insert}

pub data HostKeyDecision : Type 0 where
  accept_new same_key : HostKeyDecision
  changed : Bytes → Bytes → HostKeyDecision

unfoldable pub is_trusted : HostKeyDecision → Bool
is_trusted accept_new = true
is_trusted same_key = true
is_trusted (changed remembered presented) = false

pub record HostKeyStore : Type 0 where
  pub known : List (Bytes × Bytes)

unfoldable pub remember : HostKeyStore → Bytes → Bytes → HostKeyStore
remember s host fingerprint = record { known = insert bytes_discrete host fingerprint s.known }

-- A key is presented for a host that is known, by whether it is the remembered one.
unfoldable pub compare_known :
    HostKeyStore
    → (remembered fingerprint : Bytes) → Dec (remembered ≡ fingerprint)
    → HostKeyStore × HostKeyDecision
compare_known s remembered fingerprint (yes _) = (s, same_key)
compare_known s remembered fingerprint (no _) = (s, changed remembered fingerprint)

-- `check`, by what is remembered for the host.
unfoldable pub check_known :
    HostKeyStore → Bytes → Bytes → Option Bytes → HostKeyStore × HostKeyDecision
unfolding remember compare_known
check_known s host fingerprint none = (remember s host fingerprint, accept_new)
check_known s host fingerprint (some remembered) =
    compare_known s remembered fingerprint (bytes_discrete remembered fingerprint)

unfoldable pub check : HostKeyStore → Bytes → Bytes → HostKeyStore × HostKeyDecision
unfolding check_known
check s host fingerprint = check_known s host fingerprint (lookup bytes_discrete host s.known)

unfoldable pub checks : HostKeyStore → List (Bytes × Bytes) → HostKeyStore
unfolding check
checks s [] = s
checks s ((host, fingerprint) ∷ cs) = checks (check s host fingerprint).0 cs

compare_known-store :
    (s : HostKeyStore) (r g : Bytes) (d : Dec (r ≡ g)) → (compare_known s r g d).0 ≡ s
unfolding compare_known
compare_known-store s r g (yes e) = refl
compare_known-store s r g (no n) = refl

compare_known-trusted :
    (s : HostKeyStore) (r g : Bytes) (d : Dec (r ≡ g))
    → (is_trusted (compare_known s r g d).1 ≡ true) ↔ (r ≡ g)
unfolding compare_known is_trusted
compare_known-trusted s r g (yes e) = (λ _. e, λ _. refl)
compare_known-trusted s r g (no n) = (λ h. cc, λ h. absurd (n h))

-- A check does not touch what is remembered.
check_known-pinned :
    (s : HostKeyStore) (host f other g : Bytes) (o : Option Bytes)
    → lookup bytes_discrete host s.known ≡ some f
    → lookup bytes_discrete other s.known ≡ o
    → lookup bytes_discrete host (check_known s other g o).0.known ≡ some f
unfolding check_known
check_known-pinned s host f other g none h k = elim (bytes_discrete other host) [
  | yes e ↦ cc (h, k, e)
  | no n ↦ rw (lookup-insert, if_neg (bytes_discrete other host) n) h
]
check_known-pinned s host f other g (some r) h k =
    rw (compare_known-store s r g (bytes_discrete r g)) h

checks-pinned :
    (s : HostKeyStore) (host f : Bytes) (cs : List (Bytes × Bytes))
    → lookup bytes_discrete host s.known ≡ some f
    → lookup bytes_discrete host (checks s cs).known ≡ some f
unfolding checks check
checks-pinned s host f [] h = h
checks-pinned s host f ((other, g) ∷ cs) h =
    checks-pinned (check s other g).0 host f cs
      (check_known-pinned s host f other g (lookup bytes_discrete other s.known) h refl)

check_known-trusted :
    (s : HostKeyStore) (host f g : Bytes)
    → (is_trusted (check_known s host g (some f)).1 ≡ true) ↔ (f ≡ g)
unfolding check_known
check_known-trusted s host f g = compare_known-trusted s f g (bytes_discrete f g)

first_check :
    (s : HostKeyStore) (host f : Bytes)
    → lookup bytes_discrete host s.known ≡ none
    → (lookup bytes_discrete host (check s host f).0.known ≡ some f)
      × (is_trusted (check s host f).1 ≡ true)
unfolding check is_trusted
first_check s host f h =
    rw h (rw (lookup-insert, if_pos (bytes_discrete host host) refl) refl, refl)

-- A host that is not known is trusted with whatever key it presents first; after that, and after any
-- other checks of any hosts, it is trusted with that key and with no other.
pub check-trusts_first :
    (s : HostKeyStore) (host f g : Bytes) (cs : List (Bytes × Bytes))
    → lookup bytes_discrete host s.known ≡ none
    → (is_trusted (check s host f).1 ≡ true)
      × ((is_trusted (check (checks (check s host f).0 cs) host g).1 ≡ true) ↔ (f ≡ g))
check-trusts_first s host f g cs h =
    let first = first_check s host f h in
    let later = checks-pinned (check s host f).0 host f cs first.0 in
    (
      first.1,
      unfold check in rw later (check_known-trusted (checks (check s host f).0 cs) host f g),
    )
