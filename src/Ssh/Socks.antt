-- ===== src/Ssh/Socks.antt =====
-- src-tauri/src/ssh/socks.rs. The client's side of the stream is the list of the bytes that it sends
-- before it closes; what is written to it is a result. Writes do not fail.
pub mod Requests
use weftgrid.Base.{
  ℕ, ◌+◌, ◌*◌, Bool, true, false, List, [], ◌∷◌, ◌++◌, ltb, ◌==◌, if◌then◌else◌, Bytes, length,
  take, drop,
}
use weftgrid.Base.Results.{Result, ok, err, ◌>>=◌}
use weftgrid.Base.Text.{is_utf8}

abbrev pub socks5_version : ℕ
socks5_version = 5

abbrev pub cmd_connect : ℕ
cmd_connect = 1

abbrev pub atyp_ipv4 : ℕ
atyp_ipv4 = 1

abbrev pub atyp_domainname : ℕ
atyp_domainname = 3

abbrev pub atyp_ipv6 : ℕ
atyp_ipv6 = 4

abbrev pub auth_none : ℕ
auth_none = 0

abbrev pub auth_no_acceptable : ℕ
auth_no_acceptable = 255

pub data ReplyCode : Type 0 where
  succeeded general_failure connection_refused command_not_supported address_type_not_supported :
      ReplyCode

abbrev pub reply_byte : ReplyCode → ℕ
reply_byte succeeded = 0
reply_byte general_failure = 1
reply_byte connection_refused = 5
reply_byte command_not_supported = 7
reply_byte address_type_not_supported = 8

-- An address is its 4 or 16 octets.
pub data TargetAddr : Type 0 where
  domain : Bytes → ℕ → TargetAddr
  ip : Bytes → ℕ → TargetAddr

abbrev pub port : TargetAddr → ℕ
port (domain _ p) = p
port (ip _ p) = p

pub data SocksError : Type 0 where
  io no_acceptable_auth bad_domain : SocksError
  bad_version unsupported_command unsupported_address_type : ℕ → SocksError

-- A read returns what it read and the bytes after it.
abbrev pub Reading : Type 0 → Type 0
Reading A = Bytes → Result (A × Bytes) SocksError

unfoldable pub read_u8 : Reading ℕ
read_u8 [] = err io
read_u8 (b ∷ s) = ok (b, s)

unfoldable pub read_u16 : Reading ℕ
read_u16 [] = err io
read_u16 (hi ∷ []) = err io
read_u16 (hi ∷ lo ∷ s) = ok (hi * 256 + lo, s)

unfoldable pub read_exact : ℕ → Reading Bytes
read_exact n s = if ltb (length s) n then err io else ok (take n s, drop n s)

unfoldable pub contains : ℕ → Bytes → Bool
contains b [] = false
contains b (c ∷ cs) = if c == b then true else contains b cs

-- What is written, and whether the methods hold one that is accepted.
unfoldable pub select_method : Bytes → Bytes → Bytes × Result Bytes SocksError
unfolding contains
select_method methods s =
    if contains auth_none methods
    then (socks5_version ∷ auth_none ∷ [], ok s)
    else (socks5_version ∷ auth_no_acceptable ∷ [], err no_acceptable_auth)

unfoldable pub answer_methods : Result (Bytes × Bytes) SocksError → Bytes × Result Bytes SocksError
unfolding select_method
answer_methods (ok (methods, rest)) = select_method methods rest
answer_methods (err e) = ([], err e)

-- The bytes that are written, with the bytes that are left to read.
unfoldable pub negotiate_auth : Bytes → Bytes × Result Bytes SocksError
unfolding read_u8 read_exact answer_methods
negotiate_auth [] = ([], err io)
negotiate_auth (ver ∷ s) =
    if ver == socks5_version
    then answer_methods (read_u8 s >>= λ n. read_exact n.0 n.1)
    else ([], err (bad_version ver))

unfoldable pub read_ip : ℕ → Reading TargetAddr
unfolding read_exact read_u16
read_ip n s = read_exact n s >>= λ octets. read_u16 octets.1 >>= λ p. ok (ip octets.0 p.0, p.1)

unfoldable pub as_domain : Bytes → ℕ → Bytes → Result (TargetAddr × Bytes) SocksError
as_domain [] p s = err bad_domain
as_domain (c ∷ cs) p s = if is_utf8 (c ∷ cs) then ok (domain (c ∷ cs) p, s) else err bad_domain

unfoldable pub read_domain : Reading TargetAddr
unfolding read_u8 read_exact read_u16 as_domain
read_domain s = read_u8 s >>= λ n.
    read_exact n.0 n.1 >>= λ host. read_u16 host.1 >>= λ p. as_domain host.0 p.0 p.1

unfoldable pub read_target : ℕ → Reading TargetAddr
unfolding read_ip read_domain
read_target atyp s =
    if atyp == atyp_ipv4
    then read_ip 4 s
    else if atyp == atyp_ipv6
    then read_ip 16 s
    else if atyp == atyp_domainname
    then read_domain s
    else err (unsupported_address_type atyp)

unfoldable pub read_command : Reading TargetAddr
unfolding read_u8 read_target
read_command s = read_u8 s >>= λ cmd.
    (if cmd.0 == cmd_connect
      then (read_u8 cmd.1 >>= λ rsv. read_u8 rsv.1 >>= λ atyp. read_target atyp.0 atyp.1)
      else err (unsupported_command cmd.0))

unfoldable pub read_connect_request : Reading TargetAddr
unfolding read_u8 read_command
read_connect_request s = read_u8 s >>= λ ver.
    (if ver.0 == socks5_version then read_command ver.1 else err (bad_version ver.0))

abbrev pub write_reply : ReplyCode → Bytes
write_reply code = socks5_version ∷ reply_byte code ∷ 0 ∷ atyp_ipv4 ∷ 0 ∷ 0 ∷ 0 ∷ 0 ∷ 0 ∷ 0 ∷ []

unfoldable pub reply_code_for : SocksError → ReplyCode
reply_code_for (unsupported_command _) = command_not_supported
reply_code_for (unsupported_address_type _) = address_type_not_supported
reply_code_for io = general_failure
reply_code_for no_acceptable_auth = general_failure
reply_code_for bad_domain = general_failure
reply_code_for (bad_version _) = general_failure
