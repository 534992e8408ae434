-- ===== src/AgentRpc/Client/Session.antt =====
-- A command sent by the client to the server.
use weftgrid.Base.{◌≡◌, ◌≤◌, true, some, [], Bytes, length, append-nil, subst}
use weftgrid.Base.Results.{Result, ok}
use weftgrid.AgentRpc.Frame.{read_frame, write_frame, max_frame_bytes, read_frame-write_frame}
use weftgrid.AgentRpc.Token.{verify, load_token}
use weftgrid.AgentRpc.Dispatch.{dispatch, Command}
use weftgrid.AgentRpc.Server.{
  Codec, ServerContext, process_verified, process_parsed, process_request, respond_to, encoded,
  handle_connection,
}
use weftgrid.AgentRpc.Client.{Value, ClientCodec, SendError, framed, transact, send}

framed_round_trip :
    (payload : Bytes)
    → length payload ≤ max_frame_bytes
    → (frame : Bytes) × (write_frame payload ≡ ok frame) × (read_frame frame ≡ ok (payload, []))
framed_round_trip payload h =
    let r = read_frame-write_frame payload [] h in
    (r.0, r.1, subst (λ s. read_frame s ≡ ok (payload, [])) (append-nil r.0) r.2)

module _ {W Json : Type 0} (ctx : ServerContext W Json) (codec : Codec Json)
    (client : ClientCodec Json) (w : W) where
  -- The server's side of a connection, with its handlers in the state `w`.
  abbrev pub serving : Bytes → Result Bytes SendError
  serving sent = framed (handle_connection ctx codec w sent).1

  -- Where the codecs of both sides agree on the request and on the reply, and both fit a frame: a
  -- client that reads the session's token from its file gets, over the whole exchange, the answer that
  -- dispatching its command gives.
  pub send-serves :
      (raw body reply : Bytes) (command : Value) (c : Command)
      → verify ctx.token (load_token raw) ≡ true
      → client.request_to_vec (load_token raw) command ≡ ok body
      → codec.from_slice body ≡ ok (record { token = load_token raw; command = c })
      → codec.to_vec (dispatch ctx.dispatcher w c).1 ≡ some reply
      → client.response_from_slice reply ≡ ok (dispatch ctx.dispatcher w c).1
      → length body ≤ max_frame_bytes
      → length reply ≤ max_frame_bytes
      → send client serving (ok raw) command ≡ ok (dispatch ctx.dispatcher w c).1
  unfolding send transact handle_connection respond_to process_request process_parsed
      process_verified encoded
  send-serves raw body reply command c admitted written parsed replied decoded small_body
        small_reply =
      let there = framed_round_trip body small_body in
      let back = framed_round_trip reply small_reply in
      rw (written, there.1, there.2, parsed, admitted, replied, back.1, back.2) decoded
