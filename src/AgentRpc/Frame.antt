-- ===== src/AgentRpc/Frame.antt =====
-- src-tauri/src/agent_rpc/protocol.rs: `write_frame` and `read_frame`. The reader's side of a stream is
-- the list of the bytes that arrive before it closes; writes do not fail.
use weftgrid.Base.{
  ℕ, zero, suc, ◌+◌, ◌*◌, ◌/◌, ◌%◌, ◌^◌, ◌≤◌, ◌<◌, ◌≡◌, refl, ap, subst, false, List, [], ◌∷◌, ◌++◌,
  arith, ltb, if◌then◌else◌, Bytes, length, take, drop, All, take-length-append, drop-length-append,
  length-append, length-drop, append_assoc, Bool-cases, inl, inr,
}
use weftgrid.Base.Results.{Result, ok, err, ◌>>=◌}

abbrev pub max_frame_bytes : ℕ
max_frame_bytes = 64 * 1024 * 1024

pub data FrameError : Type 0 where
  invalid_input invalid_data unexpected_eof : FrameError

-- The four bytes of a u32, the highest first.
abbrev pub be_bytes : ℕ → Bytes
be_bytes n = n / 16777216 % 256 ∷ n / 65536 % 256 ∷ n / 256 % 256 ∷ n % 256 ∷ []

-- The bytes that are written.
unfoldable pub write_frame : Bytes → Result Bytes FrameError
write_frame payload =
    if ltb max_frame_bytes (length payload)
    then err invalid_input
    else ok (be_bytes (length payload % 2 ^ 32) ++ payload)

unfoldable pub read_exact : ℕ → Bytes → Result (Bytes × Bytes) FrameError
read_exact n s = if ltb (length s) n then err unexpected_eof else ok (take n s, drop n s)

-- The payload, with the bytes after the frame.
unfoldable pub read_payload : ℕ → Bytes → Result (Bytes × Bytes) FrameError
unfolding read_exact
read_payload n s = if ltb max_frame_bytes n then err invalid_data else read_exact n s

unfoldable pub read_frame : Bytes → Result (Bytes × Bytes) FrameError
unfolding read_payload
read_frame (a ∷ b ∷ c ∷ d ∷ s) = read_payload (((a * 256 + b) * 256 + c) * 256 + d) s
read_frame _ = err unexpected_eof

read_exact-append : (xs ys : Bytes) → read_exact (length xs) (xs ++ ys) ≡ ok (xs, ys)
unfolding read_exact
read_exact-append xs ys =
    rw (take-length-append xs ys, drop-length-append xs ys) (ground (arith, length-append xs ys))

-- The header gives back the length.
header_lem :
    (n : ℕ)
    → n < 2 ^ 32
    → ((n / 16777216 % 256 * 256 + n / 65536 % 256) * 256 + n / 256 % 256) * 256 + n % 256 ≡ n
header_lem n h = omega (arith, h)

-- A frame that is written is read back, and the bytes after it are left.
pub read_frame-write_frame :
    (payload rest : Bytes)
    → length payload ≤ max_frame_bytes
    → (frame : Bytes) × (write_frame payload ≡ ok frame)
      × (read_frame (frame ++ rest) ≡ ok (payload, rest))
unfolding write_frame read_frame read_payload
read_frame-write_frame payload rest h =
    let fits : ltb max_frame_bytes (length payload) ≡ false = ground (arith, h) in
    let small : length payload % 2 ^ 32 ≡ length payload = omega (arith, h) in
    (
      be_bytes (length payload) ++ payload,
      rw (fits, small) refl,
      rw (header_lem (length payload) (omega (arith, h)), fits) (read_exact-append payload rest),
    )

-- Several payloads, written and read in order.
unfoldable pub write_frames : List Bytes → Result Bytes FrameError
unfolding write_frame
write_frames [] = ok []
write_frames (p ∷ ps) = write_frame p >>= λ f. write_frames ps >>= λ fs. ok (f ++ fs)

unfoldable pub read_frames : ℕ → Bytes → Result (List Bytes × Bytes) FrameError
unfolding read_frame
read_frames zero s = ok ([], s)
read_frames (suc n) s = read_frame s >>= λ p. read_frames n p.1 >>= λ ps. ok (p.0 ∷ ps.0, ps.1)

abbrev pub IsSendable : Bytes → Type 0
IsSendable p = length p ≤ max_frame_bytes

-- Payloads of at most `MAX_FRAME_BYTES` each, written one after another on a stream, are read back one
-- by one in order, with nothing lost and nothing taken of what follows.
pub read_frames-write_frames :
    (payloads : List Bytes) (rest : Bytes)
    → All IsSendable payloads
    → (stream : Bytes) × (write_frames payloads ≡ ok stream)
      × (read_frames (length payloads) (stream ++ rest) ≡ ok (payloads, rest))
unfolding write_frames read_frames
read_frames-write_frames [] rest h = ([], refl, refl)
read_frames-write_frames (p ∷ ps) rest h =
    let later = read_frames-write_frames ps rest h.1 in
    let now = read_frame-write_frame p (later.0 ++ rest) h.0 in
    (
      now.0 ++ later.0,
      rw (now.1, later.1) refl,
      rw (append_assoc now.0 later.0 rest, now.2, later.2) refl,
    )

-- A frame within the limit that takes its header and its payload off the stream.
abbrev pub IsRead : ℕ → Result (Bytes × Bytes) FrameError → Type 0
IsRead n (ok (payload, rest)) =
    (length payload ≤ max_frame_bytes) × (n ≡ 4 + length payload + length rest)
IsRead n (err _) = Unit {0}

length-take : (n : ℕ) (s : Bytes) → n ≤ length s → length (take n s) ≡ n
length-take zero s h = refl
length-take (suc n) [] h = ground (arith, h)
length-take (suc n) (x ∷ s) h = ap suc (length-take n s (omega (arith, h)))

read_payload-IsRead : (n : ℕ) (s : Bytes) → IsRead (4 + length s) (read_payload n s)
unfolding read_payload read_exact
read_payload-IsRead n s = elim (Bool-cases (ltb max_frame_bytes n)) [
  | inl e ↦ rw e tt
  | inr e ↦ elim (Bool-cases (ltb (length s) n)) [
    | inl l ↦ rw (e, l) tt
    | inr l ↦
        let t = length-take n s (ground (arith, l)) in
        rw (e, l) (ground (arith, t, e), ground (arith, t, length-drop n s, l))
  ]
]

-- Whatever arrives on the stream, a payload that is read is within `MAX_FRAME_BYTES`, and reading it
-- takes four bytes and the payload off the stream.
pub read_frame-IsRead : (s : Bytes) → IsRead (length s) (read_frame s)
unfolding read_frame
read_frame-IsRead [] = tt
read_frame-IsRead (a ∷ []) = tt
read_frame-IsRead (a ∷ b ∷ []) = tt
read_frame-IsRead (a ∷ b ∷ c ∷ []) = tt
read_frame-IsRead (a ∷ b ∷ c ∷ d ∷ s) =
    subst (λ n. IsRead n (read_frame (a ∷ b ∷ c ∷ d ∷ s))) (omega arith)
      (read_payload-IsRead (((a * 256 + b) * 256 + c) * 256 + d) s)
