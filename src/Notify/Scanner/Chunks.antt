-- ===== src/Notify/Scanner/Chunks.antt =====
-- Where the stream is cut into batches makes no difference.
use weftgrid.Base.{
  ℕ, List, [], ◌∷◌, ◌++◌, ◌≡◌, refl, sym, ◌∙◌, arith, append-nil, append_assoc, Bytes,
}
use weftgrid.Notify.Scanner.{
  OscScanner, RawOsc, State, idle, scan_byte, scan_loop, push, push_found, parse_body,
}
use mathlib.Core.Option.{Option, none, some}

push_found-append :
    (out : List RawOsc) (found : Option RawOsc) → push_found out found ≡ out ++ push_found [] found
push_found-append out none = sym (append-nil out)
push_found-append out (some osc) = refl

-- `out` is only appended to, and is never read.
scan_byte-append :
    (m : State) (s : OscScanner) (out : List RawOsc) (b : ℕ)
    → scan_byte m s out b ≡ ((scan_byte m s [] b).0, out ++ (scan_byte m s [] b).1)
unfolding scan_byte
scan_byte-append idle s out b = ground (arith, append-nil out)
scan_byte-append _ s out b =
    ground (arith, append-nil out, push_found-append out (parse_body s.body))

pub scan_loop-append :
    (s : OscScanner) (out : List RawOsc) (bs : Bytes)
    → scan_loop s out bs ≡ ((scan_loop s [] bs).0, out ++ (scan_loop s [] bs).1)
unfolding scan_loop
scan_loop-append s out [] = rw append-nil
scan_loop-append s out (b ∷ bs) =
    let (r, o) = scan_byte s.state s [] b in
    rw (scan_byte-append s.state s out b)
      (scan_loop-append r (out ++ o) bs ∙ rw (scan_loop-append r o bs, append_assoc))

scan_loop-++ :
    (s : OscScanner) (out : List RawOsc) (a b : Bytes)
    → scan_loop s out (a ++ b) ≡ scan_loop (scan_loop s out a).0 (scan_loop s out a).1 b
unfolding scan_loop
scan_loop-++ s out [] b = refl
scan_loop-++ s out (x ∷ a) b =
    scan_loop-++ (scan_byte s.state s out x).0 (scan_byte s.state s out x).1 a b

-- Two batches are one: the scanner ends in the same state, and the outputs join in order.
pub push-append :
    (s : OscScanner) (a b : Bytes)
    → push s (a ++ b) ≡ ((push (push s a).0 b).0, (push s a).1 ++ (push (push s a).0 b).1)
unfolding push
push-append s a b =
    scan_loop-++ s [] a b ∙ scan_loop-append (scan_loop s [] a).0 (scan_loop s [] a).1 b

-- The calls of `push` that a pane's stream arrives in, and all that they return.
pub push_batches : OscScanner → List Bytes → OscScanner × List RawOsc
push_batches s [] = (s, [])
push_batches s (b ∷ bs) =
    let rest = push_batches (push s b).0 bs in (rest.0, (push s b).1 ++ rest.1)

pub joined : List Bytes → Bytes
joined [] = []
joined (b ∷ bs) = b ++ joined bs

-- However the stream is cut into batches, the scanner ends in the state, and the calls return
-- together the sequences, that one call on the whole stream gives.
pub push_batches-joined :
    (s : OscScanner) (bs : List Bytes) → push_batches s bs ≡ push s (joined bs)
unfolding push_batches joined
push_batches-joined s [] = unfold push scan_loop in refl
push_batches-joined s (b ∷ bs) =
    rw (push-append s b (joined bs), push_batches-joined (push s b).0 bs)
