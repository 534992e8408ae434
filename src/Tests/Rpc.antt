-- ===== src/Tests/Rpc.antt =====
-- Tests of the agent RPC server and its client.
use weftgrid.Base.{ℕ, suc, ◌≡◌, refl, none, some, [], ◌∷◌, Bytes, arith, ◌⊎◌}
use weftgrid.Base.Results.{Result, ok, err}
use weftgrid.Base.Text.{codes}
use weftgrid.AgentRpc.Frame.{max_frame_bytes}
use weftgrid.AgentRpc.Token.{SessionToken, verify, load_token}
use weftgrid.AgentRpc.Dispatch.{
  RpcRequest, RpcResponse, succeeded, failed, AutomationDispatch, DomainHandlers, Dispatcher,
  stub_handlers, Command, BrowserAction, snapshot, click, wait, PaneTarget, focused, dispatch,
}
use weftgrid.AgentRpc.Dispatch
use weftgrid.AgentRpc.Server.{Codec, ServerContext, handle_connection}
use weftgrid.AgentRpc.Server.Gate.{IsServed, IsUnauthorized, IsBadRequest, handle_connection-gate}
use weftgrid.AgentRpc.Client.{
  Value, str, TopCommand, command_json, ClientCodec, SendError, send, exit_code,
}
use weftgrid.AgentRpc.Client
use weftgrid.AgentRpc.Client.Wire.{command_json_inj}
use weftgrid.AgentRpc.Client.Session.{serving, send-serves}

abbrev secret : SessionToken
secret = record { secret = codes "s3cret" }

-- A backend that counts its calls.
abbrev counting : AutomationDispatch ℕ Bytes
counting = record {
  on_snapshot = λ n _. (suc n, ok (codes "e1 button"));
  on_click = λ n _ r. (suc n, ok r);
  on_fill = λ n _ _ _. (suc n, ok []);
  on_eval = λ n _ _. (suc n, ok []);
  on_wait = λ n _ _ _. (suc n, ok []);
  on_get = λ n _ _ _ _. (suc n, ok []);
  on_find = λ n _ _. (suc n, ok []);
}

abbrev context : ServerContext ℕ Bytes
context = record {
  token = secret;
  dispatcher = record { automation = counting; handlers = stub_handlers ℕ Bytes };
}

abbrev snapshot_command : Command
snapshot_command = Dispatch.browser focused snapshot

abbrev reply_bytes : RpcResponse Bytes → Bytes
reply_bytes (succeeded d) = 1 ∷ d
reply_bytes (failed e) = 0 ∷ e.code

abbrev codec : Codec Bytes
codec = record {
  from_slice = λ body. ok (record { token = body; command = snapshot_command });
  to_vec = λ r. some (reply_bytes r);
  eof_text = codes "early eof";
}

abbrev parsed_reply : Bytes → Result (RpcResponse Bytes) SendError
parsed_reply [] = err Client.bad_json
parsed_reply (b ∷ d) = ok (succeeded d)

abbrev client_codec : ClientCodec Bytes
client_codec = record { request_to_vec = λ token _. ok token; response_from_slice = parsed_reply }

abbrev hello : Bytes
hello = 0 ∷ 0 ∷ 0 ∷ 6 ∷ codes "s3cret"

handle_connection-gate_example :
    IsServed context codec 0 hello (handle_connection context codec 0 hello)
    ⊎ (IsUnauthorized context codec 0 hello (handle_connection context codec 0 hello)
        ⊎ IsBadRequest context codec 0 hello (handle_connection context codec 0 hello))
handle_connection-gate_example = handle_connection-gate context codec 0 hello

refused_test : (handle_connection context codec 0 (0 ∷ 0 ∷ 0 ∷ 1 ∷ 7 ∷ [])).0 ≡ 0
unfolding handle_connection weftgrid.AgentRpc.Frame.read_frame verify dispatch
refused_test = refl

served_test : (handle_connection context codec 0 (0 ∷ 0 ∷ 0 ∷ 6 ∷ codes "s3cret")).0 ≡ 1
unfolding handle_connection weftgrid.AgentRpc.Frame.read_frame verify dispatch
served_test = refl

send-serves_example :
    send client_codec
      (serving context codec client_codec 0)
      (ok (codes "s3cret"))
      (command_json (Client.browser none snapshot))
    ≡ ok (dispatch context.dispatcher 0 snapshot_command).1
unfolding load_token verify dispatch
send-serves_example =
    send-serves context codec client_codec 0 (codes "s3cret") (codes "s3cret")
      (1 ∷ codes "e1 button") (command_json (Client.browser none snapshot)) snapshot_command refl
      refl refl refl refl (omega arith) (omega arith)

command_json_inj_example : Client.browser none snapshot ≡ Client.browser none snapshot
command_json_inj_example =
    command_json_inj (Client.browser none snapshot) (Client.browser none snapshot) refl

exit_code_test : exit_code {Json = Bytes} (err Client.unreachable) ≡ 2
unfolding exit_code
exit_code_test = refl
