-- ===== src/AgentRpc/Client.antt =====
-- crates/weft-cli/src: the commands that the `weft` client builds as JSON values (cmd_browser.rs,
-- cmd_notify.rs, cmd_ssh.rs) and its exchange with the server (rpc_client.rs). An object's fields are
-- listed in the order of the source.
pub mod Wire
pub mod Session
use weftgrid.Base.{ℕ, ◌≡◌, Option, some, none, List, [], ◌∷◌, ◌++◌, Bytes}
use weftgrid.Base.Results.{Result, ok, err, ◌>>=◌}
use weftgrid.Base.Text.{codes}
use weftgrid.AgentRpc.Frame.{FrameError, read_frame, write_frame}
use weftgrid.AgentRpc.Token.{load_token}
use weftgrid.AgentRpc.Dispatch.{
  BrowserAction, snapshot, click, fill, eval, wait, get, find, GetKind, text, html, value, attr,
  box, styles, count, RpcResponse, succeeded, failed,
}

-- The JSON values that the client builds.
mutual
  pub data Value : Type 0 where
    str : Bytes → Value
    num : ℕ → Value
    obj : Fields → Value

  pub data Fields : Type 0 where
    end : Fields
    field : Bytes → Value → Fields → Fields

unfoldable pub as_wire : GetKind → Bytes
as_wire text = codes "text"
as_wire html = codes "html"
as_wire value = codes "value"
as_wire attr = codes "attr"
as_wire box = codes "box"
as_wire styles = codes "styles"
as_wire count = codes "count"

unfoldable pub target_json : Option Bytes → Value
target_json (some id) = obj (field (codes "pane") (obj (field (codes "id") (str id) end)) end)
target_json none = str (codes "focused")

-- `if let Some(s) = …`: the field is inserted if there is a text.
unfoldable pub text_field : Bytes → Option Bytes → Fields → Fields
text_field key none fs = fs
text_field key (some t) fs = field key (str t) fs

unfoldable pub number_field : Bytes → Option ℕ → Fields → Fields
number_field key none fs = fs
number_field key (some n) fs = field key (num n) fs

unfoldable pub action_fields : BrowserAction → Fields
unfolding as_wire text_field number_field
action_fields snapshot = field (codes "op") (str (codes "snapshot")) end
action_fields (click reference) =
    field (codes "op") (str (codes "click")) (field (codes "ref") (str reference) end)
action_fields (fill reference t) =
    field (codes "op") (str (codes "fill"))
      (field (codes "ref") (str reference) (field (codes "text") (str t) end))
action_fields (eval js) = field (codes "op") (str (codes "eval")) (field (codes "js") (str js) end)
action_fields (wait selector timeout_ms) =
    field (codes "op") (str (codes "wait"))
      (text_field (codes "selector") selector (number_field (codes "timeout_ms") timeout_ms end))
action_fields (get reference kind a) = field (codes "op") (str (codes "get")) (
    field (codes "ref") (str reference)
      (field (codes "kind") (str (as_wire kind)) (text_field (codes "attr") a end)))
action_fields (find query) =
    field (codes "op") (str (codes "find")) (field (codes "query") (str query) end)

abbrev pub action_json : BrowserAction → Value
action_json action = obj (action_fields action)

-- The subcommands, with the pane of `--pane`.
pub data TopCommand : Type 0 where
  browser : Option Bytes → BrowserAction → TopCommand
  notify ssh : Bytes → TopCommand

unfoldable pub command_json : TopCommand → Value
unfolding target_json action_fields
command_json (browser pane action) = obj (
    field (codes "domain") (str (codes "browser"))
      (field (codes "target") (target_json pane) (field (codes "action") (action_json action) end)))
command_json (notify message) =
    obj (field (codes "domain") (str (codes "notify")) (field (codes "message") (str message) end))
command_json (ssh destination) =
    obj (
      field (codes "domain") (str (codes "ssh"))
        (field (codes "destination") (str destination) end))

-- Why `send` fails: a file or the connection, a frame, or the serialization.
pub data SendError : Type 0 where
  unreachable : SendError
  bad_frame : FrameError → SendError
  bad_json : SendError

abbrev pub framed {ℓ} : {A : Type ℓ} → Result A FrameError → Result A SendError
framed (ok a) = ok a
framed (err e) = err (bad_frame e)

-- What serde does at the client's side: a token and a command to bytes, a reply's bytes back.
pub record ClientCodec (Json : Type 0) : Type 0 where
  pub request_to_vec : Bytes → Value → Result Bytes SendError
  pub response_from_slice : Bytes → Result (RpcResponse Json) SendError

module _ {Json : Type 0} (codec : ClientCodec Json) (connect : Bytes → Result Bytes SendError) where
  -- `connect` is what the server's side of the connection makes of the bytes that it gets.
  unfoldable pub transact : Bytes → Result Bytes SendError
  transact body = framed (write_frame body) >>= λ sent.
      connect sent >>= λ reply. framed (read_frame reply) >>= λ r. ok r.0

  -- `token_file` is what reading the token's file gives; the endpoint is that of `connect`.
  unfoldable pub send : Result Bytes SendError → Value → Result (RpcResponse Json) SendError
  unfolding transact load_token
  send token_file command = token_file >>= λ raw.
      codec.request_to_vec (load_token raw) command >>= λ body.
      transact body >>= λ reply. codec.response_from_slice reply

-- The exit code of `run_command`.
unfoldable pub exit_code : {Json : Type 0} → Result (RpcResponse Json) SendError → ℕ
exit_code (ok (succeeded _)) = 0
exit_code (ok (failed _)) = 1
exit_code (err _) = 2
