-- ===== src/Pty/Coalescer.antt =====
-- src-tauri/src/pty/coalescer.rs, lines 32 to 82: one pane's buffer. Instants and durations are
-- nanoseconds; `duration_since` stops at zero, as `-` does.
use weftgrid.Base.{
  ℕ, ◌-◌, ◌*◌, Bool, true, false, Option, none, some, [], ◌∷◌, ◌++◌, leb, if◌then◌else◌, Bytes,
  length,
}

-- 8 ms
abbrev pub default_window : ℕ
default_window = 8 * 1000000

abbrev pub default_size_cap : ℕ
default_size_cap = 64 * 1024

pub record Coalescer : Type 0 where
  pub buf : Bytes
  pub window : ℕ
  pub size_cap : ℕ
  pub first_push : Option ℕ

abbrev pub new : ℕ → ℕ → Coalescer
new window size_cap = record { buf = []; window = window; size_cap = size_cap; first_push = none }

abbrev pub empty_list : Bytes → Bool
empty_list [] = true
empty_list (_ ∷ _) = false

abbrev pub is_empty : Coalescer → Bool
is_empty c = empty_list c.buf

unfoldable pub push : Coalescer → ℕ → Bytes → Coalescer
push c now d = record c {
  buf = c.buf ++ d;
  first_push = if is_empty c then some now else c.first_push;
}

abbrev pub elapsed : Option ℕ → ℕ → ℕ → Bool
elapsed none now window = false
elapsed (some start) now window = leb window (now - start)

unfoldable pub is_flush_due : Coalescer → ℕ → Bool
is_flush_due c now =
    if is_empty c
    then false
    else if leb c.size_cap (length c.buf)
    then true
    else elapsed c.first_push now c.window

-- The drained batch and the coalescer after it.
unfoldable pub take : Coalescer → Coalescer × Bytes
take c = (record c { buf = []; first_push = none }, c.buf)
