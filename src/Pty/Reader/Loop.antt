-- ===== src/Pty/Reader/Loop.antt =====
-- What `read_loop` hands to its sink.
use weftgrid.Base.{
  ◌≡◌, refl, Bool, true, false, List, [], ◌∷◌, ◌++◌, map, if◌then◌else◌, Bytes, select, ap,
}
use weftgrid.Pty.Reader.{Round, paused, interrupted, failed, got, on_data, on_eof, read_loop}

abbrev pub is_read : Round → Bool
is_read paused = false
is_read interrupted = true
is_read failed = true
is_read (got d) = true

-- The reads up to the end of the input or an error.
abbrev pub reads_of : List Round → List Bytes
reads_of [] = []
reads_of (paused ∷ rs) = reads_of rs
reads_of (interrupted ∷ rs) = reads_of rs
reads_of (failed ∷ rs) = []
reads_of (got [] ∷ rs) = []
reads_of (got (b ∷ bs) ∷ rs) = (b ∷ bs) ∷ reads_of rs

pub record IsFaithful (rs : List Round) : Type 0 where
  pub calls :
      (read_loop rs).0 ≡ map on_data (reads_of rs) ++ (if (read_loop rs).1 then on_eof ∷ [] else [])
  pub pauses : read_loop (select is_read rs) ≡ read_loop rs
  pub final : (more : List Round) → (read_loop rs).1 ≡ true → read_loop (rs ++ more) ≡ read_loop rs

-- The sink is given each read up to the end of the input, in order and unchanged, then `on_eof`
-- once, exactly if the loop has returned; pauses change nothing of it; and once the loop has
-- returned nothing more is read.
pub read_loop-IsFaithful : (rs : List Round) → IsFaithful rs
unfolding read_loop
read_loop-IsFaithful [] = record { calls = refl; pauses = refl; final = λ more h. cc }
read_loop-IsFaithful (paused ∷ rs) =
    let v = read_loop-IsFaithful rs in
    record { calls = v.calls; pauses = v.pauses; final = v.final }
read_loop-IsFaithful (interrupted ∷ rs) =
    let v = read_loop-IsFaithful rs in
    record { calls = v.calls; pauses = v.pauses; final = v.final }
read_loop-IsFaithful (failed ∷ rs) = record { calls = refl; pauses = refl; final = λ more h. refl }
read_loop-IsFaithful (got [] ∷ rs) = record { calls = refl; pauses = refl; final = λ more h. refl }
read_loop-IsFaithful (got (b ∷ bs) ∷ rs) =
    let v = read_loop-IsFaithful rs in
    record {
      calls = ap (◌∷◌ (on_data (b ∷ bs))) v.calls;
      pauses = rw v.pauses;
      final = λ more h. rw (v.final more h);
    }
