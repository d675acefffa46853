-- ===== src/Policy/Eval.antt =====
-- src/policy/mod.rs: `holds`, and `Policy::check`.
pub mod Laws
use pq_ucan.Base.{
  ℕ, zero, suc, Bool, true, false, not, ◌&&◌, ◌||◌, if◌then◌else◌, List, [], ◌∷◌, Option, none,
  some, all, any, position_from, Text, Result, ok, err, Ordering,
}
use pq_ucan.Ipld
use pq_ucan.Ipld.{Ipld, Items, to_list}
use pq_ucan.Policy.Glob
use pq_ucan.Policy.Number
use pq_ucan.Policy.Number.{Number, equal}
use pq_ucan.Policy.Selector.{Selector, resolve}
use pq_ucan.Policy.Syntax.{Statement, Statements, Policy}

-- `Ordering::is_lt` and its companions.
abbrev pub is_lt : Ordering → Bool
is_lt o = elim o [ Ordering.lt ↦ true | _ ↦ false ]

abbrev pub is_le : Ordering → Bool
is_le o = elim o [ Ordering.gt ↦ false | _ ↦ true ]

abbrev pub is_gt : Ordering → Bool
is_gt o = elim o [ Ordering.gt ↦ true | _ ↦ false ]

abbrev pub is_ge : Ordering → Bool
is_ge o = elim o [ Ordering.lt ↦ false | _ ↦ true ]

-- `is_some_and`.
abbrev pub is_some_and {ℓ} : {A : Type ℓ} → Option A → (A → Bool) → Bool
is_some_and none p = false
is_some_and (some a) p = p a

abbrev pub and_then {ℓ κ} : {A : Type ℓ} {B : Type κ} → Option A → (A → Option B) → Option B
and_then none f = none
and_then (some a) f = f a

abbrev pub is_empty : {A : Type 0} → List A → Bool
is_empty [] = true
is_empty (x ∷ xs) = false

module _ {C : Type 0} where
  unfoldable pub compare_at : Selector → Ipld C → Number → (Ordering → Bool) → Bool
  unfolding resolve Number.from_ipld Number.partial_cmp
  compare_at s args right accept =
      is_some_and
        (and_then (and_then (resolve s args) Number.from_ipld)
          (λ left. Number.partial_cmp left right))
        accept

  abbrev items_of : Ipld C → Option (List (Ipld C))
  items_of (Ipld.list vs) = some (to_list vs)
  items_of (Ipld.map fs) = some (Ipld.values fs)
  items_of _ = none

  unfoldable pub elements : Selector → Ipld C → Option (List (Ipld C))
  unfolding resolve
  elements s args = and_then (resolve s args) items_of

  -- The matcher's loop always ends, so the `none` of the model does not occur.
  abbrev pub is_match : Glob.Pattern → Ipld C → Bool
  is_match p (Ipld.string t) = elim (Glob.matches p t) [ some b ↦ b | none ↦ false ]
  is_match p _ = false

  abbrev pub no_statements : Statements C → Bool
  no_statements Statements.nil = true
  no_statements (Statements.cons s ss) = false

-- The `match` on the position.
abbrev pub outcome : Option ℕ → Result ℕ (Unit {0})
outcome none = ok tt
outcome (some i) = err i

module _ {C : Type 0} (same_cid : C → C → Bool) where
  abbrev pub equals_at : Selector → Ipld C → Ipld C → Bool
  equals_at s value args = is_some_and (resolve s args) (λ found. equal same_cid found value)

  unfoldable mutual
    unfolding resolve equal compare_at elements Glob.matches

    pub holds : Statement C → Ipld C → Bool
    holds (Statement.equal s value) args = equals_at s value args
    holds (Statement.not_equal s value) args = not (equals_at s value args)
    holds (Statement.less s n) args = compare_at s args n is_lt
    holds (Statement.less_or_equal s n) args = compare_at s args n is_le
    holds (Statement.greater s n) args = compare_at s args n is_gt
    holds (Statement.greater_or_equal s n) args = compare_at s args n is_ge
    holds (Statement.like s p) args = is_some_and (resolve s args) (is_match p)
    holds (Statement.and ss) args = all_hold ss args
    holds (Statement.or ss) args = no_statements ss || any_holds ss args
    holds (Statement.not s) args = not (holds s args)
    holds (Statement.all s inner) args = is_some_and (elements s args) (all (holds inner))
    holds (Statement.any s inner) args =
        is_some_and (elements s args) (λ items. is_empty items || any (holds inner) items)

    pub all_hold : Statements C → Ipld C → Bool
    all_hold Statements.nil args = true
    all_hold (Statements.cons s ss) args = holds s args && all_hold ss args

    pub any_holds : Statements C → Ipld C → Bool
    any_holds Statements.nil args = false
    any_holds (Statements.cons s ss) args = holds s args || any_holds ss args

  -- The index of the first statement that does not hold.
  unfoldable pub check : Policy C → Ipld C → Result ℕ (Unit {0})
  unfolding holds
  check policy args = outcome (position_from 0 (λ s. not (holds s args)) policy)
