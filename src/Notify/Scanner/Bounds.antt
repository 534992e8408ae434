-- ===== src/Notify/Scanner/Bounds.antt =====
-- What is buffered stays bounded, whatever the producer sends.
use weftgrid.Base.{ℕ, ◌≤◌, List, [], ◌∷◌, ◌++◌, ◌≡◌, refl, arith, Bytes, length, length-append}
use weftgrid.Notify.Scanner.{
  OscScanner, RawOsc, State, idle, esc_armed, scan_byte, scan_loop, push, max_pending, bel, new,
}
use weftgrid.Notify.Scanner.Chunks.{scan_loop-append}

-- The body fits the cap, and bytes are held only inside a sequence.
pub record IsBounded (s : OscScanner) : Type 0 where
  pub fits : length s.body ≤ max_pending
  pub idle_is_empty : s.state ≡ idle → s.body ≡ []
  pub armed_is_empty : s.state ≡ esc_armed → s.body ≡ []

scan_byte-IsBounded :
    (m : State) (s : OscScanner) (out : List RawOsc) (b : ℕ)
    → s.state ≡ m
    → IsBounded s
    → IsBounded (scan_byte m s out b).0
unfolding scan_byte
scan_byte-IsBounded idle s out b e v = ground (arith, v.idle_is_empty e)
scan_byte-IsBounded esc_armed s out b e v = ground (arith, v.armed_is_empty e)
scan_byte-IsBounded _ s out b e v = ground (arith, length-append s.body (b ∷ []))

scan_loop-IsBounded :
    (s : OscScanner) (out : List RawOsc) (bs : Bytes)
    → IsBounded s
    → IsBounded (scan_loop s out bs).0
unfolding scan_loop
scan_loop-IsBounded s out [] v = v
scan_loop-IsBounded s out (b ∷ bs) v =
    scan_loop-IsBounded (scan_byte s.state s out b).0 (scan_byte s.state s out b).1 bs
      (scan_byte-IsBounded s.state s out b refl v)

-- No stream makes a scanner that is within the cap hold more than the cap, or makes one that holds
-- nothing while it waits for a sequence hold bytes then.
pub push-IsBounded : (s : OscScanner) (bs : Bytes) → IsBounded s → IsBounded (push s bs).0
unfolding push
push-IsBounded s bs v = scan_loop-IsBounded s [] bs v

pub new-IsBounded : IsBounded new
new-IsBounded = ground arith

scan_byte-bel :
    (m : State) (s : OscScanner) (out : List RawOsc)
    → s.state ≡ m
    → IsBounded s
    → (scan_byte m s out bel).0 ≡ new
unfolding scan_byte
scan_byte-bel idle s out e v = ground (arith, v.idle_is_empty e)
scan_byte-bel esc_armed s out e v = ground (arith, v.armed_is_empty e)
scan_byte-bel _ s out e v = ground arith

-- One BEL brings every bounded scanner back to the start, so what came before cannot spoil a
-- later sequence: its output is what a new scanner returns for it.
pub push-bel_recovers :
    (s : OscScanner) (bs : Bytes)
    → IsBounded s
    → push s (bel ∷ bs) ≡ ((push new bs).0, (push s (bel ∷ [])).1 ++ (push new bs).1)
unfolding push scan_loop
push-bel_recovers s bs v =
    rw (scan_byte-bel s.state s [] refl v) (scan_loop-append new (scan_byte s.state s [] bel).1 bs)
