-- ===== src/Ssh/Socks/Requests.antt =====
-- Requests as the client writes them, against what the readers take.
use weftgrid.Base.{
  ℕ, ◌+◌, ◌*◌, ◌/◌, ◌%◌, ◌≤◌, ◌<◌, ◌≡◌, refl, sym, ap, ◌⊎◌, inl, inr, true, [], ◌∷◌, ◌++◌, arith,
  ◌==◌, if◌then◌else◌, Bytes, length, length-append, take-length-append, drop-length-append,
  append_assoc, Bool-cases,
}
use weftgrid.Base.Results.{Result, ok, err, ◌>>=◌}
use weftgrid.Base.Text.{is_utf8}
use weftgrid.Ssh.Socks.{
  TargetAddr, domain, ip, SocksError, read_u8, read_exact, contains, select_method, negotiate_auth,
  answer_methods, read_ip, as_domain, read_domain, read_target, read_command, read_connect_request,
}

-- The targets of a request: a text of up to 255 bytes that is not empty, or octets.
unfoldable pub IsTarget : TargetAddr → Type 0
IsTarget (domain host p) =
    (is_utf8 host ≡ true) × (1 ≤ length host) × (length host < 256) × (p < 65536)
IsTarget (ip octets p) = ((length octets ≡ 4) ⊎ (length octets ≡ 16)) × (p < 65536)

abbrev port_bytes : ℕ → Bytes
port_bytes p = p / 256 ∷ p % 256 ∷ []

-- The address part of a request (RFC 1928), and a whole request.
unfoldable pub encode_address : TargetAddr → Bytes
encode_address (domain host p) = 3 ∷ length host ∷ host ++ port_bytes p
encode_address (ip octets p) = (if length octets == 4 then 1 else 4) ∷ octets ++ port_bytes p

unfoldable pub encode_request : ℕ → TargetAddr → Bytes
encode_request rsv target = 5 ∷ 1 ∷ rsv ∷ encode_address target

pub read_exact-append :
    (xs ys : Bytes) (n : ℕ) → n ≡ length xs → read_exact n (xs ++ ys) ≡ ok (xs, ys)
unfolding read_exact
read_exact-append xs ys n h =
    rw (h, take-length-append xs ys, drop-length-append xs ys) (ground (arith, length-append xs ys))

port_lem : (p : ℕ) → p / 256 * 256 + p % 256 ≡ p
port_lem p = omega arith

read_ip-encode :
    (octets rest : Bytes) (p n : ℕ)
    → n ≡ length octets
    → read_ip n ((octets ++ port_bytes p) ++ rest) ≡ ok (ip octets p, rest)
unfolding read_ip
read_ip-encode octets rest p n h =
    rw
      (append_assoc octets (port_bytes p) rest, read_exact-append octets (port_bytes p ++ rest) n h)
      (ap (λ q. ok (ip octets q, rest)) (port_lem p))

as_domain-ok :
    (host : Bytes) (p : ℕ) (s : Bytes)
    → is_utf8 host ≡ true
    → 1 ≤ length host
    → as_domain host p s ≡ ok (domain host p, s)
unfolding as_domain
as_domain-ok [] p s h k = ground (arith, k)
as_domain-ok (c ∷ cs) p s h k = rw h refl

read_domain-encode :
    (host rest : Bytes) (p : ℕ)
    → is_utf8 host ≡ true
    → 1 ≤ length host
    → read_domain (length host ∷ (host ++ port_bytes p) ++ rest) ≡ ok (domain host p, rest)
unfolding read_domain read_u8
read_domain-encode host rest p h k =
    rw
      (
        append_assoc host (port_bytes p) rest,
        read_exact-append host (port_bytes p ++ rest) (length host) refl,
      )
      (rw (port_lem p) (as_domain-ok host p rest h k))

read_target-ip :
    (octets rest : Bytes) (p : ℕ)
    → (length octets ≡ 4) ⊎ (length octets ≡ 16)
    → read_target (if length octets == 4 then 1 else 4) ((octets ++ port_bytes p) ++ rest)
      ≡ ok (ip octets p, rest)
unfolding read_target
read_target-ip octets rest p (inl h) = rw h (read_ip-encode octets rest p 4 (sym h))
read_target-ip octets rest p (inr h) = rw h (read_ip-encode octets rest p 16 (sym h))

-- A request for a target, a UTF-8 name of 1 to 255 bytes or an address, is read back as that
-- target, whatever the reserved byte and the bytes after the request are, and exactly the bytes of
-- the request are taken: a name reaches the caller as it was sent.
pub read_connect_request-encode :
    (rsv : ℕ) (target : TargetAddr) (rest : Bytes)
    → IsTarget target
    → read_connect_request (encode_request rsv target ++ rest) ≡ ok (target, rest)
unfolding read_connect_request read_command read_u8 encode_request encode_address IsTarget
    read_target
read_connect_request-encode rsv (domain host p) rest (h, k, lt, q) =
    read_domain-encode host rest p h k
read_connect_request-encode rsv (ip octets p) rest (h, q) = read_target-ip octets rest p h

pub negotiate_auth-offer :
    (methods rest : Bytes)
    → contains 0 methods ≡ true
    → negotiate_auth (5 ∷ length methods ∷ methods ++ rest) ≡ (5 ∷ 0 ∷ [], ok rest)
unfolding negotiate_auth read_u8 answer_methods select_method
negotiate_auth-offer methods rest h =
    rw (read_exact-append methods rest (length methods) refl) (rw h refl)

-- How the negotiation of the method may end.
abbrev pub IsNegotiated : Bytes × Result Bytes SocksError → Type 0
IsNegotiated (written, ok s) = written ≡ 5 ∷ 0 ∷ []
IsNegotiated (written, err e) = (written ≡ []) ⊎ (written ≡ 5 ∷ 255 ∷ [])

answer_methods-IsNegotiated :
    (r : Result (Bytes × Bytes) SocksError) → IsNegotiated (answer_methods r)
unfolding answer_methods select_method
answer_methods-IsNegotiated (err e) = inl refl
answer_methods-IsNegotiated (ok (methods, rest)) = elim (Bool-cases (contains 0 methods)) [
  | inl h ↦ rw h refl
  | inr h ↦ rw h (inr refl)
]

pub negotiate_auth-IsNegotiated : (s : Bytes) → IsNegotiated (negotiate_auth s)
unfolding negotiate_auth
negotiate_auth-IsNegotiated [] = inl refl
negotiate_auth-IsNegotiated (ver ∷ s) = elim (Bool-cases (ver == 5)) [
  | inl h ↦ rw h (answer_methods-IsNegotiated (read_u8 s >>= λ n. read_exact n.0 n.1))
  | inr h ↦ rw h (inl refl)
]
