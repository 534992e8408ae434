-- ===== src/AgentRpc/Server/Gate.antt =====
-- What a connection can reach: without the token, no handler.
use weftgrid.Base.{◌≡◌, refl, Bytes, ◌⊎◌, inl, inr, Bool-cases}
use weftgrid.Base.Results.{Result, ok, err}
use weftgrid.AgentRpc.Frame.{FrameError, read_frame, write_frame}
use weftgrid.AgentRpc.Token.{verify, IsAccepted, verify_accepts}
use weftgrid.AgentRpc.Dispatch.{RpcRequest, RpcResponse, failed, dispatch}
use weftgrid.AgentRpc.Server.{
  Codec, ServerContext, frame_text, bad_request, unauthorized, process_verified, process_parsed,
  process_request, respond_to, encoded, handle_connection,
}

module _ {W Json : Type 0} (ctx : ServerContext W Json) (codec : Codec Json) where
  -- The input is a frame with that request.
  abbrev pub IsRequest : Bytes → RpcRequest → Type 0
  IsRequest input request =
      (body : Bytes) × (rest : Bytes) × (read_frame input ≡ ok (body, rest))
      × (codec.from_slice body ≡ ok request)

  -- The input is no frame, or its body is no request; `message` says why.
  abbrev pub IsUnreadable : Bytes → Bytes → Type 0
  IsUnreadable input message =
      ((e : FrameError) × (read_frame input ≡ err e) × (message ≡ frame_text codec.eof_text e))
      ⊎ ((body : Bytes) × (rest : Bytes) × (read_frame input ≡ ok (body, rest))
          × (codec.from_slice body ≡ err message))

  -- The answer goes to the client as one frame, an answer that cannot be encoded as the text of an
  -- internal error.
  abbrev pub replied : W × RpcResponse Json → W × Result Bytes FrameError
  replied answer = (answer.0, write_frame (encoded ctx codec (codec.to_vec answer.1)))

  -- The request has a token that is accepted, and the result is that of dispatching its command.
  abbrev pub IsServed : W → Bytes → W × Result Bytes FrameError → Type 0
  IsServed w input result =
      (request : RpcRequest) × IsRequest input request
      × IsAccepted ctx.token.secret request.token
      × (result ≡ replied (dispatch ctx.dispatcher w request.command))

  -- The request has a token that is not accepted; no handler runs.
  abbrev pub IsUnauthorized : W → Bytes → W × Result Bytes FrameError → Type 0
  IsUnauthorized w input result =
      (request : RpcRequest) × IsRequest input request
      × (¬ IsAccepted ctx.token.secret request.token)
      × (result ≡ replied (w, failed unauthorized))

  -- There is no request; no handler runs.
  abbrev pub IsBadRequest : W → Bytes → W × Result Bytes FrameError → Type 0
  IsBadRequest w input result =
      (message : Bytes) × IsUnreadable input message
      × (result ≡ replied (w, failed (bad_request message)))

  abbrev IsGated : W → Bytes → W × Result Bytes FrameError → Type 0
  IsGated w input result =
      IsServed w input result ⊎ (IsUnauthorized w input result ⊎ IsBadRequest w input result)

  request-gate :
      (w : W) (input : Bytes) (request : RpcRequest)
      → IsRequest input request
      → IsGated w input (replied (process_parsed ctx codec w (ok request)))
  unfolding process_parsed process_verified
  request-gate w input request is = elim (Bool-cases (verify ctx.token request.token)) [
    | inl e ↦ rw e (inl (request, is, (verify_accepts ctx.token request.token).0 e, refl))
    | inr e ↦ rw e (
        inr (
          inl (
            request,
            is,
            (λ accepted. let h = (verify_accepts ctx.token request.token).1 accepted in cc (e, h)),
            refl,
          )))
  ]

  body-gate :
      (w : W) (input body rest : Bytes) (r : Result RpcRequest Bytes)
      → read_frame input ≡ ok (body, rest)
      → codec.from_slice body ≡ r
      → IsGated w input (replied (process_parsed ctx codec w r))
  body-gate w input body rest (err e) read parsed =
      unfold process_parsed in inr (inr (e, inr (body, rest, read, parsed), refl))
  body-gate w input body rest (ok request) read parsed =
      request-gate w input request (body, rest, read, parsed)

  read-gate :
      (w : W) (input : Bytes) (r : Result (Bytes × Bytes) FrameError)
      → read_frame input ≡ r
      → IsGated w input (replied (respond_to ctx codec w r))
  unfolding respond_to process_request
  read-gate w input (err e) read =
      inr (inr (frame_text codec.eof_text e, inl (e, read, refl), refl))
  read-gate w input (ok (body, rest)) read =
      body-gate w input body rest (codec.from_slice body) read refl

  -- Whatever a client sends, one of three things holds. It is a frame with a request whose token is
  -- accepted, and the handlers' state and the reply are those of dispatching its command. Or its
  -- token is not accepted, no handler runs, and the reply is the error "unauthorized". Or it is no
  -- frame with a request, no handler runs, and the reply is a "bad_request" that says why. Accepted
  -- is the session's token, and what differs from it only by zero bytes at the end, if the lengths
  -- agree in their last eight bits. A reply that cannot be encoded, or is too long for a frame, is
  -- replaced by the text of an internal error, or by the error of writing it.
  pub handle_connection-gate :
      (w : W) (input : Bytes)
      → IsServed w input (handle_connection ctx codec w input)
        ⊎ (IsUnauthorized w input (handle_connection ctx codec w input)
            ⊎ IsBadRequest w input (handle_connection ctx codec w input))
  unfolding handle_connection
  handle_connection-gate w input = read-gate w input (read_frame input) refl
