-- ===== src/Tests/AgentRpc.antt =====
-- Tests of the agent RPC track.
use weftgrid.Base.{◌≡◌, refl, true, [], ◌∷◌, ◌++◌, List, Bytes, length, replicate, arith}
use weftgrid.Base.Text.{codes}
use weftgrid.Base.Results.{ok, err}
use weftgrid.AgentRpc.Frame.{
  write_frames, read_frames, write_frame, read_frame, invalid_data, read_frames-write_frames,
}
use weftgrid.AgentRpc.Token.{SessionToken, verify, load_token}

abbrev two_payloads : List Bytes
two_payloads = (1 ∷ 2 ∷ 3 ∷ []) ∷ [] ∷ []

read_frames-write_frames_example :
    (stream : Bytes) × (write_frames two_payloads ≡ ok stream)
    × (read_frames (length two_payloads) (stream ++ (9 ∷ [])) ≡ ok (two_payloads, 9 ∷ []))
read_frames-write_frames_example =
    read_frames-write_frames two_payloads (9 ∷ []) (omega arith, (omega arith, tt))

frame_test : write_frame (7 ∷ 8 ∷ []) ≡ ok (0 ∷ 0 ∷ 0 ∷ 2 ∷ 7 ∷ 8 ∷ [])
unfolding write_frame
frame_test = refl

long_header_test : read_frame (4 ∷ 0 ∷ 0 ∷ 1 ∷ []) ≡ err invalid_data
unfolding read_frame
long_header_test = refl

abbrev token : SessionToken
token = record { secret = codes "s3cret" }

-- A length that differs by 256 is folded away by the cast to a byte.
padded_candidate_test : verify token (codes "s3cret" ++ replicate 256 0) ≡ true
unfolding verify
padded_candidate_test = refl

trimmed_test : load_token (97 ∷ 98 ∷ 13 ∷ 10 ∷ []) ≡ 97 ∷ 98 ∷ []
unfolding load_token
trimmed_test = refl
