-- ===== src/Policy/Wire.antt =====
-- src/policy/mod.rs: `from_ipld` and `to_ipld`, the wire form of statements and policies.
pub mod RoundTrip
use pq_ucan.Base.{
  ℕ, zero, suc, ◌≡◌, Bool, true, false, ◌==◌, if◌then◌else◌, List, [], ◌∷◌, Option, none, some,
  length, get_elem?, Text, codes, text_eq, Result, ok, err, ◌>>=◌, ◌>>◌, ok_or, ensure, map_err,
}
use pq_ucan.Ipld.{Ipld, Items, string, list, nil, cons}
use pq_ucan.Policy.Glob
use pq_ucan.Policy.Number
use pq_ucan.Policy.Number.{Number}
use pq_ucan.Policy.Selector.{Selector}
use pq_ucan.Policy.Selector.Parse as SelectorParse
use pq_ucan.Policy.Syntax.{
  Statement, Statements, PolicyError, Policy, not_a_list, statement_not_a_list, missing_operator,
  unknown_operator, arity, missing_operand, expected_selector, selector, expected_number,
  expected_string, expected_statement_list,
}

-- An item of the list, and what the closures `statement` and `statements` make of it.
pub record Operand (C : Type 0) : Type 0 where
  pub value : Ipld C
  pub as_statement : Result PolicyError (Statement C)
  pub as_statements : Result PolicyError (Statements C)

module _ {C : Type 0} where
  abbrev pub check_arity : Text → List (Operand C) → ℕ → Result PolicyError (Unit {0})
  check_arity op items n = ensure (length items == n) (arity op)

  abbrev pub parse_selector : Ipld C → Result PolicyError Selector
  parse_selector (string text) = map_err selector (SelectorParse.parse text)
  parse_selector _ = err expected_selector

  -- The closures `selector`, `number`, `statement` and `statements`.
  unfoldable pub selector_of : List (Operand C) → Result PolicyError Selector
  unfolding SelectorParse.parse
  selector_of items = elim (get_elem? items 1) [
    | some item ↦ parse_selector item.value
    | none ↦ err expected_selector
  ]

  unfoldable pub number_of : List (Operand C) → Result PolicyError Number
  unfolding Number.from_ipld
  number_of items = elim (get_elem? items 2) [
    | some item ↦ ok_or (Number.from_ipld item.value) expected_number
    | none ↦ err expected_number
  ]

  unfoldable pub value_of : List (Operand C) → Result PolicyError (Ipld C)
  value_of items = elim (get_elem? items 2) [
    | some item ↦ ok item.value
    | none ↦ err missing_operand
  ]

  unfoldable pub statement_of : List (Operand C) → ℕ → Result PolicyError (Statement C)
  statement_of items i = elim (get_elem? items i) [
    | some item ↦ item.as_statement
    | none ↦ err missing_operand
  ]

  unfoldable pub statements_of : List (Operand C) → ℕ → Result PolicyError (Statements C)
  statements_of items i = elim (get_elem? items i) [
    | some item ↦ item.as_statements
    | none ↦ err expected_statement_list
  ]

  abbrev pub parse_pattern : Ipld C → Result PolicyError Glob.Pattern
  parse_pattern (string text) = ok (Glob.parse text)
  parse_pattern _ = err expected_string

  unfoldable pub pattern_of : List (Operand C) → Result PolicyError Glob.Pattern
  unfolding Glob.parse
  pattern_of items = elim (get_elem? items 2) [
    | some item ↦ parse_pattern item.value
    | none ↦ err expected_string
  ]

  -- The arms for the operators that take a selector and a value, a number or a pattern.
  unfoldable pub with_value :
      (Selector → Ipld C → Statement C) → Text → List (Operand C) → Result PolicyError (Statement C)
  unfolding selector_of value_of
  with_value make op items = do
    check_arity op items 3
    s ← selector_of items
    v ← value_of items
    ok (make s v)

  unfoldable pub with_number :
      (Selector → Number → Statement C) → Text → List (Operand C) → Result PolicyError (Statement C)
  unfolding selector_of number_of
  with_number make op items = do
    check_arity op items 3
    s ← selector_of items
    n ← number_of items
    ok (make s n)

  unfoldable pub with_pattern : Text → List (Operand C) → Result PolicyError (Statement C)
  unfolding selector_of pattern_of
  with_pattern op items = do
    check_arity op items 3
    p ← pattern_of items
    s ← selector_of items
    ok (Statement.like s p)

  -- The arms for the connectives and the quantifiers.
  unfoldable pub with_statements :
      (Statements C → Statement C) → Text → List (Operand C) → Result PolicyError (Statement C)
  unfolding statements_of
  with_statements make op items = do
    check_arity op items 2
    ss ← statements_of items 1
    ok (make ss)

  unfoldable pub with_not : Text → List (Operand C) → Result PolicyError (Statement C)
  unfolding statement_of
  with_not op items = do check_arity op items 2; s ← statement_of items 1; ok (Statement.not s)

  unfoldable pub with_quantifier :
      (Selector → Statement C → Statement C)
      → Text
      → List (Operand C)
      → Result PolicyError (Statement C)
  unfolding selector_of statement_of
  with_quantifier make op items = do
    check_arity op items 3
    s ← selector_of items
    inner ← statement_of items 2
    ok (make s inner)

  -- The `match` on the operator.
  unfoldable pub by_operator : Text → List (Operand C) → Result PolicyError (Statement C)
  unfolding with_value with_number with_pattern with_statements with_not with_quantifier
  by_operator op items =
      if text_eq op (codes "==")
      then with_value Statement.equal op items
      else if text_eq op (codes "!=")
      then with_value Statement.not_equal op items
      else if text_eq op (codes "<")
      then with_number Statement.less op items
      else if text_eq op (codes "<=")
      then with_number Statement.less_or_equal op items
      else if text_eq op (codes ">")
      then with_number Statement.greater op items
      else if text_eq op (codes ">=")
      then with_number Statement.greater_or_equal op items
      else if text_eq op (codes "like")
      then with_pattern op items
      else if text_eq op (codes "and")
      then with_statements Statement.and op items
      else if text_eq op (codes "or")
      then with_statements Statement.or op items
      else if text_eq op (codes "not")
      then with_not op items
      else if text_eq op (codes "all")
      then with_quantifier Statement.all op items
      else if text_eq op (codes "any")
      then with_quantifier Statement.any op items
      else err (unknown_operator op)

  abbrev pub on_first : Ipld C → List (Operand C) → Result PolicyError (Statement C)
  on_first (string op) items = by_operator op items
  on_first _ items = err missing_operator

  abbrev pub build : List (Operand C) → Result PolicyError (Statement C)
  build [] = err missing_operator
  build (item ∷ items) = on_first item.value (item ∷ items)

  -- `map(Statement::from_ipld).collect()`: the first error, or all the statements.
  abbrev pub collect : List (Operand C) → Result PolicyError (Statements C)
  collect [] = ok Statements.nil
  collect (item ∷ items) = do s ← item.as_statement; ss ← collect items; ok (Statements.cons s ss)

  unfoldable mutual
    unfolding by_operator

    pub from_ipld : Ipld C → Result PolicyError (Statement C)
    from_ipld (list items) = build (operands items)
    from_ipld _ = err statement_not_a_list

    pub statement_list : Ipld C → Result PolicyError (Statements C)
    statement_list (list items) = collect (operands items)
    statement_list _ = err expected_statement_list

    pub operands : Items C → List (Operand C)
    operands nil = []
    operands (cons v vs) =
        record { value = v; as_statement = from_ipld v; as_statements = statement_list v }
        ∷ operands vs

  -- `Policy::from_ipld`.
  abbrev pub to_policy : Statements C → Policy C
  to_policy Statements.nil = []
  to_policy (Statements.cons s ss) = s ∷ to_policy ss

  unfoldable pub policy_from_ipld : Ipld C → Result PolicyError (Policy C)
  unfolding operands
  policy_from_ipld (list items) = do ss ← collect (operands items); ok (to_policy ss)
  policy_from_ipld _ = err not_a_list

  abbrev pub triple : Text → Selector → Ipld C → Ipld C
  triple op s value = list (cons (string op) (cons (string s.text) (cons value nil)))

  abbrev pub pair : Text → Ipld C → Ipld C
  pair op value = list (cons (string op) (cons value nil))

  unfoldable mutual
    unfolding Number.to_ipld

    pub to_ipld : Statement C → Ipld C
    to_ipld (Statement.equal s v) = triple (codes "==") s v
    to_ipld (Statement.not_equal s v) = triple (codes "!=") s v
    to_ipld (Statement.less s n) = triple (codes "<") s (Number.to_ipld n)
    to_ipld (Statement.less_or_equal s n) = triple (codes "<=") s (Number.to_ipld n)
    to_ipld (Statement.greater s n) = triple (codes ">") s (Number.to_ipld n)
    to_ipld (Statement.greater_or_equal s n) = triple (codes ">=") s (Number.to_ipld n)
    to_ipld (Statement.like s p) = triple (codes "like") s (string p.text)
    to_ipld (Statement.and ss) = pair (codes "and") (list (to_items ss))
    to_ipld (Statement.or ss) = pair (codes "or") (list (to_items ss))
    to_ipld (Statement.not s) = pair (codes "not") (to_ipld s)
    to_ipld (Statement.all s inner) = triple (codes "all") s (to_ipld inner)
    to_ipld (Statement.any s inner) = triple (codes "any") s (to_ipld inner)

    pub to_items : Statements C → Items C
    to_items Statements.nil = nil
    to_items (Statements.cons s ss) = cons (to_ipld s) (to_items ss)

  abbrev pub policy_items : Policy C → Items C
  policy_items [] = nil
  policy_items (s ∷ ss) = cons (to_ipld s) (policy_items ss)

  -- `Policy::to_ipld`.
  abbrev pub policy_to_ipld : Policy C → Ipld C
  policy_to_ipld p = list (policy_items p)
