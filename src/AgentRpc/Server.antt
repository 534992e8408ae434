-- ===== src/AgentRpc/Server.antt =====
-- src-tauri/src/agent_rpc/server.rs: one connection. The bytes of the client are a list, what the
-- server writes is a list; the decoding and encoding of messages by serde are parameters.
pub mod Gate
use weftgrid.Base.{Bool, true, false, Option, some, none, List, [], ◌∷◌, Bytes}
use weftgrid.Base.Results.{Result, ok, err}
use weftgrid.Base.Text.{codes}
use weftgrid.AgentRpc.Frame.{
  FrameError, invalid_input, invalid_data, unexpected_eof, read_frame, write_frame,
}
use weftgrid.AgentRpc.Token.{SessionToken, verify}
use weftgrid.AgentRpc.Dispatch.{RpcRequest, RpcResponse, failed, ErrorModel, Dispatcher, dispatch}

-- What serde and tokio do: the error of `from_slice` is its text, `to_vec` may fail.
pub record Codec (Json : Type 0) : Type 0 where
  pub from_slice : Bytes → Result RpcRequest Bytes
  pub to_vec : RpcResponse Json → Option Bytes
  pub eof_text : Bytes

pub record ServerContext (W Json : Type 0) : Type 0 where
  pub token : SessionToken
  pub dispatcher : Dispatcher W Json

-- The text of the error that a frame is refused with.
unfoldable pub frame_text : Bytes → FrameError → Bytes
frame_text eof invalid_input = codes "frame exceeds maximum size"
frame_text eof invalid_data = codes "frame length exceeds maximum size"
frame_text eof unexpected_eof = eof

abbrev pub bad_request : Bytes → ErrorModel
bad_request message = record { code = codes "bad_request"; message = message }

abbrev pub unauthorized : ErrorModel
unauthorized = record { code = codes "unauthorized"; message = codes "authentication failed" }

abbrev pub internal_reply : Bytes
internal_reply =
    codes "{\"status\":\"error\",\"error\":{\"code\":\"internal\",\"message\":\"encode failed\"}}"

module _ {W Json : Type 0} (ctx : ServerContext W Json) (codec : Codec Json) where
  -- A request whose token is checked: the guard, then the dispatch.
  unfoldable pub process_verified : W → RpcRequest → Bool → W × RpcResponse Json
  process_verified w request false = (w, failed unauthorized)
  process_verified w request true = dispatch ctx.dispatcher w request.command

  unfoldable pub process_parsed : W → Result RpcRequest Bytes → W × RpcResponse Json
  unfolding process_verified
  process_parsed w (err e) = (w, failed (bad_request e))
  process_parsed w (ok request) = process_verified w request (verify ctx.token request.token)

  unfoldable pub process_request : W → Bytes → W × RpcResponse Json
  unfolding process_parsed
  process_request w body = process_parsed w (codec.from_slice body)

  unfoldable pub respond_to : W → Result (Bytes × Bytes) FrameError → W × RpcResponse Json
  unfolding process_request frame_text
  respond_to w (ok (payload, _)) = process_request w payload
  respond_to w (err e) = (w, failed (bad_request (frame_text codec.eof_text e)))

  unfoldable pub encoded : Option Bytes → Bytes
  encoded (some bytes) = bytes
  encoded none = internal_reply

  -- What is written to the client, or the error of writing it.
  unfoldable pub handle_connection : W → Bytes → W × Result Bytes FrameError
  unfolding respond_to encoded
  handle_connection w input =
      let answer = respond_to w (read_frame input) in
      (answer.0, write_frame (encoded (codec.to_vec answer.1)))
