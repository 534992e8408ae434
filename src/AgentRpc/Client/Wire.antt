-- ===== src/AgentRpc/Client/Wire.antt =====
-- Different commands look different on the wire.
use weftgrid.Base.{ℕ, ◌+◌, ◌*◌, ◌≡◌, refl, ap, Option, some, none, ◌∷◌, Bytes, arith}
use weftgrid.Base.Text.{codes}
use weftgrid.AgentRpc.Dispatch.{
  BrowserAction, snapshot, click, fill, eval, wait, get, find, GetKind, text, html, value, attr,
  box, styles, count,
}
use weftgrid.AgentRpc.Client.{
  str, Fields, end, field, as_wire, target_json, text_field, number_field, action_fields,
  TopCommand, browser, notify, ssh, command_json,
}

-- The first and the third byte tell the words apart.
abbrev word_code : Bytes → ℕ
word_code (a ∷ b ∷ c ∷ bs) = a * 256 + c
word_code _ = 0

abbrev op_code : Fields → ℕ
op_code (field key (str word) fs) = word_code word
op_code _ = 0

as_wire_inj : (a b : GetKind) → as_wire a ≡ as_wire b → a ≡ b
unfolding as_wire
as_wire_inj text text h = refl
as_wire_inj html html h = refl
as_wire_inj value value h = refl
as_wire_inj attr attr h = refl
as_wire_inj box box h = refl
as_wire_inj styles styles h = refl
as_wire_inj count count h = refl
as_wire_inj _ _ h = absurd (omega (arith, ap word_code h))

text_field_end_inj :
    (key : Bytes) (s t : Option Bytes) → text_field key s end ≡ text_field key t end → s ≡ t
unfolding text_field
text_field_end_inj key none none h = refl
text_field_end_inj key (some s) none h = cc
text_field_end_inj key none (some t) h = cc
text_field_end_inj key (some s) (some t) h = cc

number_field_end_inj :
    (key : Bytes) (s t : Option ℕ) → number_field key s end ≡ number_field key t end → s ≡ t
unfolding number_field
number_field_end_inj key none none h = refl
number_field_end_inj key (some s) none h = cc
number_field_end_inj key none (some t) h = cc
number_field_end_inj key (some s) (some t) h = cc

wait_fields_inj :
    (s t : Option Bytes) (m n : Option ℕ)
    → text_field (codes "selector") s (number_field (codes "timeout_ms") m end)
      ≡ text_field (codes "selector") t (number_field (codes "timeout_ms") n end)
    → (s ≡ t) × (m ≡ n)
unfolding text_field
wait_fields_inj none none m n h = (refl, number_field_end_inj (codes "timeout_ms") m n h)
wait_fields_inj (some s) (some t) m n h = (cc, number_field_end_inj (codes "timeout_ms") m n (cc))
wait_fields_inj none (some t) none n h = unfold number_field in cc
wait_fields_inj none (some t) (some m) n h = unfold number_field in cc
wait_fields_inj (some s) none m none h = unfold number_field in cc
wait_fields_inj (some s) none m (some n) h = unfold number_field in cc

action_fields_inj : (a b : BrowserAction) → action_fields a ≡ action_fields b → a ≡ b
unfolding action_fields
action_fields_inj snapshot snapshot h = refl
action_fields_inj (click r) (click s) h = cc
action_fields_inj (fill r t) (fill s u) h = cc
action_fields_inj (eval r) (eval s) h = cc
action_fields_inj (wait s m) (wait t n) h = let e = wait_fields_inj s t m n (cc) in cc (e.0, e.1)
action_fields_inj (get r k a) (get s l b) h =
    cc (as_wire_inj k l (cc), text_field_end_inj (codes "attr") a b (cc))
action_fields_inj (find r) (find s) h = cc
action_fields_inj _ _ h = absurd (omega (arith, ap op_code h))

target_json_inj : (p q : Option Bytes) → target_json p ≡ target_json q → p ≡ q
unfolding target_json
target_json_inj none none h = refl
target_json_inj (some p) none h = cc
target_json_inj none (some q) h = cc
target_json_inj (some p) (some q) h = cc

-- Two commands with the same JSON value are the same command: the same subcommand with the same
-- pane, action and operands, an operand that is left out included.
pub command_json_inj : (c d : TopCommand) → command_json c ≡ command_json d → c ≡ d
unfolding command_json
command_json_inj (browser p a) (browser q b) h =
    cc (target_json_inj p q (cc), action_fields_inj a b (cc))
command_json_inj (notify m) (notify n) h = cc
command_json_inj (ssh m) (ssh n) h = cc
command_json_inj _ _ h = cc
