-- ===== src/Notify/Scanner/Frames.antt =====
-- A whole sequence, from any point outside one.
use weftgrid.Base.{
  ℕ, ◌+◌, ◌≤◌, List, [], ◌∷◌, ◌++◌, ◌≡◌, refl, ◌≢◌, arith, Bytes, length, All, append-nil,
  append_assoc, length-append, ◌∙◌,
}
use weftgrid.Notify.Scanner.{
  OscScanner, RawOsc, idle, in_body, scan_byte, scan_loop, push, push_found, parse_body,
  max_pending, esc, bel, osc_introducer, st_final, new,
}

-- Neither byte that can end or abandon a body.
abbrev pub IsClean : Bytes → Type 0
IsClean = All (λ b. (b ≢ esc) × (b ≢ bel))

scan_byte_clean :
    (b : ℕ) (acc : Bytes) (out : List RawOsc)
    → b ≢ esc
    → b ≢ bel
    → length acc + 1 ≤ max_pending
    → scan_byte in_body (record { state = in_body; body = acc }) out b
      ≡ (record { state = in_body; body = acc ++ b ∷ [] }, out)
unfolding scan_byte
scan_byte_clean b acc out h k l = ground (arith, length-append acc (b ∷ []))

scan_loop_clean :
    (t rest acc : Bytes) (out : List RawOsc)
    → IsClean t
    → length acc + length t ≤ max_pending
    → scan_loop (record { state = in_body; body = acc }) out (t ++ rest)
      ≡ scan_loop (record { state = in_body; body = acc ++ t }) out rest
unfolding scan_loop
scan_loop_clean [] rest acc out h k = rw append-nil
scan_loop_clean (b ∷ t) rest acc out h k =
    rw (scan_byte_clean b acc out h.0.0 h.0.1 (omega arith), scan_loop)
      (scan_loop_clean t rest (acc ++ b ∷ []) out h.1 (omega (arith, length-append acc (b ∷ [])))
        ∙ rw append_assoc)

module _ (t : Bytes) (clean : IsClean t) (fits : length t ≤ max_pending) where
  -- `ESC ] t BEL`
  pub scan_bel :
      (s : OscScanner) (rest : Bytes) (out : List RawOsc)
      → s.state ≡ idle
      → scan_loop s out (esc ∷ osc_introducer ∷ (t ++ (bel ∷ rest)))
        ≡ scan_loop new (push_found out (parse_body t)) rest
  unfolding scan_loop scan_byte
  scan_bel s rest out e = ground (arith, scan_loop_clean t (bel ∷ rest) [] out clean (omega arith))

  -- `ESC ] t ESC \`
  pub scan_st :
      (s : OscScanner) (rest : Bytes) (out : List RawOsc)
      → s.state ≡ idle
      → scan_loop s out (esc ∷ osc_introducer ∷ (t ++ (esc ∷ st_final ∷ rest)))
        ≡ scan_loop new (push_found out (parse_body t)) rest
  unfolding scan_loop scan_byte
  scan_st s rest out e =
      ground (arith, scan_loop_clean t (esc ∷ st_final ∷ rest) [] out clean (omega arith))

-- Output with no ESC in it completes nothing and leaves an idle scanner as it was.
pub push_plain :
    (s : OscScanner) (bs : Bytes) → s.state ≡ idle → All (λ b. b ≢ esc) bs → push s bs ≡ (s, [])
unfolding push scan_loop scan_byte
push_plain s [] e h = refl
push_plain s (b ∷ bs) e h = ground (arith, push_plain s bs e h.1)
