-- ===== src/Tests/Ssh.antt =====
-- Tests of the SSH track.
use weftgrid.Base.{
  ℕ, ◌+◌, ◌*◌, ◌≡◌, ◌↔◌, inl, inr, refl, min, Bool, true, false, none, some, [], ◌∷◌, ◌++◌, List,
  Bytes, length, arith, ltb, if◌then◌else◌, leb,
}
use weftgrid.Base.Text.{codes}
use weftgrid.Base.Results.{ok}
use weftgrid.Ssh.HostKey.{HostKeyStore, is_trusted, check, checks, check-trusts_first}
use weftgrid.Ssh.Reconnect
use weftgrid.Ssh.Reconnect.{ReconnectSupervisor, default_policy, backoff_for}
use weftgrid.Ssh.Reconnect.Retries.{
  Failure, drops, attempt_fails, fail_all, retries, is_failed, fail_all-retries,
}
use weftgrid.Ssh.Socks.{TargetAddr, domain, read_connect_request}
use weftgrid.Ssh.Socks.Requests.{IsTarget, encode_request, read_connect_request-encode}

abbrev live : ReconnectSupervisor
live = record (Reconnect.new default_policy) { status = Reconnect.connected }

abbrev five_failures : List Failure
five_failures = attempt_fails ∷ attempt_fails ∷ attempt_fails ∷ attempt_fails ∷ attempt_fails ∷ []

fail_all-retries_example :
    ((fail_all live (drops ∷ five_failures)).1 ≡ retries default_policy 0 6)
    × ((fail_all live (drops ∷ five_failures)).0.attempt ≡ 0 + 6)
    × ((fail_all live (drops ∷ five_failures)).0.policy ≡ default_policy)
    × (is_failed (fail_all live (drops ∷ five_failures)).0.status ≡ ltb 5 (0 + 6))
fail_all-retries_example = fail_all-retries live drops five_failures (omega arith)

retries_test :
    retries default_policy 0 6
    ≡ some 500000000
      ∷ some 1000000000
      ∷ some 2000000000
      ∷ some 4000000000
      ∷ some 8000000000
      ∷ none
      ∷ []
unfolding retries backoff_for
retries_test = refl

abbrev target : TargetAddr
target = domain (codes "host.test") 443

target-IsTarget : IsTarget target
unfolding IsTarget weftgrid.Base.Text.is_utf8
target-IsTarget = (refl, omega arith, omega arith, omega arith)

read_connect_request-encode_example :
    read_connect_request (encode_request 0 target ++ codes "GET") ≡ ok (target, codes "GET")
read_connect_request-encode_example =
    read_connect_request-encode 0 target (codes "GET") target-IsTarget

abbrev no_text : Bytes → Bytes
no_text octets = []

abbrev opens : Bytes → ℕ → Bool
opens host port = leb 400 port

-- A client that offers no authentication and asks for the target.
abbrev request : Bytes
request = 5 ∷ 1 ∷ 0 ∷ (encode_request 0 target ++ codes "GET")

abbrev no_hosts : HostKeyStore
no_hosts = record { known = [] }

check-trusts_first_example :
    (is_trusted (check no_hosts (codes "host") (codes "k")).1 ≡ true)
    × ((is_trusted
            (check
              (checks
                (check no_hosts (codes "host") (codes "k")).0
                ((codes "host", codes "l") ∷ (codes "other", codes "l") ∷ []))
              (codes "host")
              (codes "l")).1
          ≡ true)
        ↔ (codes "k" ≡ codes "l"))
unfolding weftgrid.Base.Maps.lookup
check-trusts_first_example =
    check-trusts_first no_hosts (codes "host") (codes "k") (codes "l")
      ((codes "host", codes "l") ∷ (codes "other", codes "l") ∷ []) refl
