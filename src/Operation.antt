-- ===== src/Operation.antt =====
-- proxy/src/operation.h.
use pancake.Base.Tests.{◌≡◌, ◌↔◌, Bool, true, false, not, [], arith, if◌then◌else◌}
use pancake.Base.Text.{Text, text_eqb, text_eqb_iff}

pub record Operation : Type 0 where
  pub key : Text
  pub value : Text

-- the default constructor
abbrev pub blank : Operation
blank = record { key = []; value = [] }

-- `operator=`, which returns the object that it is called on
unfoldable pub assign : Operation → Operation → Operation
assign this that = this

-- `operator==` and `operator!=`
unfoldable pub equals : Operation → Operation → Bool
equals this rhs =
    if not (text_eqb this.key rhs.key)
    then false
    else (if not (text_eqb this.value rhs.value) then false else true)

unfoldable pub differs : Operation → Operation → Bool
unfolding equals
differs this rhs = not (equals this rhs)

-- Two operations are equal for `operator==` exactly if they have the same key and value, and
-- `operator!=` says no exactly then.
pub equals_iff :
    (a b : Operation) → ((equals a b ≡ true) ↔ (a ≡ b)) × ((differs a b ≡ false) ↔ (a ≡ b))
unfolding equals differs
equals_iff a b = (
  ground (arith, text_eqb_iff a.key b.key, text_eqb_iff a.value b.value),
  ground (arith, text_eqb_iff a.key b.key, text_eqb_iff a.value b.value),
)
