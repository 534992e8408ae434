-- ===== src/Ssh/Broker.antt =====
-- src-tauri/src/ssh/socks_broker.rs: one client connection, up to the point where bytes are copied both
-- ways. The channel opener is a function that says whether the tunnel opens; `ip_text` prints the octets
-- of an address as `IpAddr`'s `to_string` does.
use weftgrid.Base.{
  ℕ, ◌≡◌, ◌≢◌, refl, ◌⊎◌, Bool, true, false, Option, none, some, [], ◌∷◌, ◌++◌, if◌then◌else◌,
  Bytes, length,
}
use weftgrid.Base.Results.{Result, ok, err}
use weftgrid.Ssh.Socks.{
  ReplyCode, succeeded, connection_refused, TargetAddr, domain, ip, port, SocksError, contains,
  negotiate_auth, read_connect_request, write_reply, reply_code_for,
}
use weftgrid.Ssh.Socks.Requests.{
  IsTarget, encode_request, read_connect_request-encode, negotiate_auth-offer,
}

-- What became of a connection: the bytes written to the client, the target that the opener was asked
-- for, whether it opened or not, and the client's further bytes if they are copied to the tunnel.
pub record Served : Type 0 where
  pub written : Bytes
  pub asked : Option (Bytes × ℕ)
  pub piped : Option Bytes

module _ (ip_text : Bytes → Bytes) (opener : Bytes → ℕ → Bool) where
  abbrev pub host : TargetAddr → Bytes
  host (domain h _) = h
  host (ip octets _) = ip_text octets

  unfoldable pub pipe_target : Bytes → TargetAddr → Bytes → Served
  pipe_target written target rest =
      if opener (host target) (port target)
      then record {
        written = written ++ write_reply succeeded;
        asked = some (host target, port target);
        piped = some rest;
      }
      else record {
        written = written ++ write_reply connection_refused;
        asked = some (host target, port target);
        piped = none;
      }

  unfoldable pub serve_target : Bytes → Result (TargetAddr × Bytes) SocksError → Served
  unfolding pipe_target reply_code_for
  serve_target written (ok (target, rest)) = pipe_target written target rest
  serve_target written (err e) = record {
    written = written ++ write_reply (reply_code_for e);
    asked = none;
    piped = none;
  }

  unfoldable pub serve_request : Bytes → Bytes → Served
  unfolding read_connect_request serve_target
  serve_request written s = serve_target written (read_connect_request s)

  unfoldable pub serve_after : Bytes × Result Bytes SocksError → Served
  unfolding serve_request
  serve_after (written, ok s) = serve_request written s
  serve_after (written, err e) = record { written = written; asked = none; piped = none }

  unfoldable pub handle_connection : Bytes → Served
  unfolding negotiate_auth serve_after
  handle_connection s = serve_after (negotiate_auth s)

  -- A client that offers no authentication among its methods and asks for a target is told
  -- `Succeeded` and piped from the first byte after its request on, or told `ConnectionRefused`,
  -- as the opener says of that host and port; a name is passed on as it was sent.
  pub handle_connection-serves :
      (methods : Bytes) (rsv : ℕ) (target : TargetAddr) (rest : Bytes)
      → contains 0 methods ≡ true
      → IsTarget target
      → handle_connection (5 ∷ length methods ∷ methods ++ (encode_request rsv target ++ rest)) ≡ (
          if opener (host target) (port target)
          then record {
            written = 5 ∷ 0 ∷ write_reply succeeded;
            asked = some (host target, port target);
            piped = some rest;
          }
          else record {
            written = 5 ∷ 0 ∷ write_reply connection_refused;
            asked = some (host target, port target);
            piped = none;
          })
  unfolding handle_connection serve_after serve_request serve_target pipe_target
  handle_connection-serves methods rsv target rest h t =
      rw (negotiate_auth-offer methods (encode_request rsv target ++ rest) h)
        (rw (read_connect_request-encode rsv target rest t) refl)

  -- The opener was not asked.
  abbrev pub IsUnasked : Served → Type 0
  IsUnasked r = (r.asked ≡ none) × (r.piped ≡ none)

  -- The opener was asked for a target and opened a tunnel to it, and bytes are copied.
  abbrev pub IsTunnelled : Served → Type 0
  IsTunnelled r =
      (h : Bytes) × (p : ℕ) × (rest : Bytes) × (r.asked ≡ some (h, p))
      × (opener h p ≡ true)
      × (r.piped ≡ some rest)

  -- The opener was asked for a target and refused it, and nothing is copied.
  abbrev pub IsDenied : Served → Type 0
  IsDenied r =
      (h : Bytes) × (p : ℕ) × (r.asked ≡ some (h, p)) × (opener h p ≡ false) × (r.piped ≡ none)

  -- The four ends of a connection.
  abbrev pub IsEnd : Served → Type 0
  IsEnd r =
      (((r.written ≡ []) ⊎ (r.written ≡ 5 ∷ 255 ∷ [])) × IsUnasked r)
      ⊎ (((code : ReplyCode) × (code ≢ succeeded)
            × (r.written ≡ 5 ∷ 0 ∷ write_reply code)
            × IsUnasked r)
          ⊎ (((r.written ≡ 5 ∷ 0 ∷ write_reply connection_refused) × IsDenied r)
              ⊎ ((r.written ≡ 5 ∷ 0 ∷ write_reply succeeded) × IsTunnelled r)))
