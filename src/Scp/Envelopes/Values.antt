-- ===== src/Scp/Envelopes/Values.antt =====
-- What validateValues makes of the values of a statement.
use essa_core.Prelude.{
  ℕ, ◌≡◌, Bool, true, false, ◌&&◌, ◌||◌, ◌==◌, ltb, arith, some, List, [], ◌∷◌, if◌then◌else◌,
}
use essa_core.Scp.Ballot.{ScpBallot, Prepare, st_prepare}
use essa_core.Scp.Federated.{
  Context, ValidationLevel, invalid_value, maybe_valid_value, fully_validated_value,
}
use essa_core.Scp.Envelopes.{values_of, or_level, validate_all, validate_values, insert_value}

abbrev pub is_full : ValidationLevel → Bool
is_full invalid_value = false
is_full maybe_valid_value = false
is_full fully_validated_value = true

abbrev pub all_full : Context → List ℕ → Bool
all_full ctx [] = true
all_full ctx (v ∷ vs) = is_full (ctx.validate_value v) && all_full ctx vs

validate_all-full :
    (ctx : Context) (vs : List ℕ) (res : ValidationLevel)
    → is_full (validate_all ctx vs res) ≡ (is_full res && all_full ctx vs)
unfolding validate_all
validate_all-full ctx [] res = ground arith
validate_all-full ctx (v ∷ vs) res =
    ground (arith, validate_all-full ctx vs (or_level (ctx.validate_value v) res))

-- Of two levels, the second decides unless it is full.
abbrev pub level_of_two : ValidationLevel → ValidationLevel → ValidationLevel
level_of_two less fully_validated_value = less
level_of_two less invalid_value = invalid_value
level_of_two less maybe_valid_value = maybe_valid_value

-- The values of a PREPARE statement that has a prepared ballot are validated in their order, and the
-- greater one decides unless it is fully validated: a lesser value that is invalid is passed over
-- where the greater one is maybe valid. The value of a ballot with the counter 0 is left out, so that
-- the prepared one decides alone. The result is fully validated exactly when the values that are
-- looked at are.
pub validate_values-greater :
    (ctx : Context) (p : Prepare) (b : ScpBallot)
    → p.prepared ≡ some b
    → (validate_values ctx (st_prepare p) ≡ (
        if p.ballot.counter == 0
        then ctx.validate_value b.value
        else (if ltb b.value p.ballot.value
            then level_of_two (ctx.validate_value b.value) (ctx.validate_value p.ballot.value)
            else level_of_two (ctx.validate_value p.ballot.value) (ctx.validate_value b.value))))
      × (is_full (validate_values ctx (st_prepare p)) ≡ (
          (p.ballot.counter == 0 || is_full (ctx.validate_value p.ballot.value))
          && is_full (ctx.validate_value b.value)))
unfolding validate_values validate_all values_of insert_value
validate_values-greater ctx p b h = (ground (arith, h), ground (arith, h))
