-- ===== src/Policy/Syntax.antt =====
-- src/policy/mod.rs: the statements of a policy, and why one does not parse.
use pq_ucan.Base.{List, Text}
use pq_ucan.Ipld.{Ipld}
use pq_ucan.Policy.Glob.{Pattern}
use pq_ucan.Policy.Number.{Number}
use pq_ucan.Policy.Selector.{Selector}
use pq_ucan.Policy.Selector.Parse.{SelectorError}

mutual
  pub data Statement (C : Type 0) : Type 0 where
    equal not_equal : Selector → Ipld C → Statement C
    less less_or_equal greater greater_or_equal : Selector → Number → Statement C
    like : Selector → Pattern → Statement C
    and or : Statements C → Statement C
    not : Statement C → Statement C
    all any : Selector → Statement C → Statement C

  -- `Vec<Statement>`.
  pub data Statements (C : Type 0) : Type 0 where
    nil : Statements C
    cons : Statement C → Statements C → Statements C

pub data PolicyError : Type 0 where
  not_a_list statement_not_a_list missing_operator : PolicyError
  unknown_operator arity : Text → PolicyError
  missing_operand expected_selector : PolicyError
  selector : SelectorError → PolicyError
  expected_number expected_string expected_statement_list : PolicyError

-- `Policy(Vec<Statement>)`.
abbrev pub Policy : Type 0 → Type 0
Policy C = List (Statement C)
