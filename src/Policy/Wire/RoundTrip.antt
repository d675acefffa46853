-- ===== src/Policy/Wire/RoundTrip.antt =====
-- src/policy/mod.rs: a policy that parses is written again exactly as it was read.
use pq_ucan.Base.{
  ◌≡◌, refl, sym, ap, ap₂, subst, ◌∙◌, if◌then◌else◌, List, [], ◌∷◌, Text, codes, text_eq,
  text_eq→eq, Result, ok, err, >>=-eq-ok, ok_or, ok_or-eq-ok, ok-injective, map_err, All, arith,
  Bool-cases, inl, inr,
}
use pq_ucan.Ipld.{Ipld, Items, string, list, nil, cons}
use pq_ucan.Policy.Glob
use pq_ucan.Policy.Number
use pq_ucan.Policy.Number.{Number}
use pq_ucan.Policy.Selector.{Selector}
use pq_ucan.Policy.Selector.Parse as SelectorParse
use pq_ucan.Policy.Selector.Total.{parse-text}
use pq_ucan.Policy.Syntax.{Statement, Statements, PolicyError, Policy, selector}
use pq_ucan.Policy.Wire.{
  Operand, parse_selector, parse_pattern, with_value, with_number, with_pattern, with_statements,
  with_not, with_quantifier, by_operator, on_first, build, collect, from_ipld, statement_list,
  operands, to_ipld, to_items, triple, pair, to_policy, policy_from_ipld, policy_to_ipld,
  policy_items,
}

map_err-ok : {E F B : Type 0} (f : E → F) (r : Result E B) {b : B} → map_err f r ≡ ok b → r ≡ ok b
map_err-ok f (ok b) h = cc
map_err-ok f (err e) h = cc

module _ {C : Type 0} where
  -- What was made of an item is written as the item.
  abbrev Faithful : Operand C → Type 0
  Faithful o =
      ((s : Statement C) → o.as_statement ≡ ok s → to_ipld s ≡ o.value)
      × ((ss : Statements C) → o.as_statements ≡ ok ss → list (to_items ss) ≡ o.value)

  abbrev written : List (Operand C) → Items C
  written [] = nil
  written (o ∷ os) = cons o.value (written os)

  parse_selector-text : (v : Ipld C) (s : Selector) → parse_selector v ≡ ok s → string s.text ≡ v
  parse_selector-text (string t) s h =
      ap string (parse-text t s (map_err-ok selector (SelectorParse.parse t) h))
  parse_selector-text _ s h = cc

  abbrev behind_first : List (Operand C) → Items C
  behind_first [] = nil
  behind_first (o ∷ os) = written os

  -- The statement is written as its operator and the other items.
  abbrev Written : Text → List (Operand C) → Statement C → Type 0
  Written op items s = to_ipld s ≡ list (cons (string op) (behind_first items))

  abbrev Makes3 : (B : Type 0) → (B → Ipld C) → (Selector → B → Statement C) → Text → Type 0
  Makes3 B wire make op = (sel : Selector) (v : B) → to_ipld (make sel v) ≡ triple op sel (wire v)

  triple_written :
      (B : Type 0) (wire : B → Ipld C) (make : Selector → B → Statement C) (op : Text)
      (a b c : Operand C) (sel : Selector) (v : B)
      → Makes3 B wire make op
      → parse_selector b.value ≡ ok sel
      → wire v ≡ c.value
      → Written op (a ∷ b ∷ c ∷ []) (make sel v)
  triple_written B wire make op a b c sel v m e f =
      m sel v
      ∙ ap₂ (λ x y. list (cons (string op) (cons x (cons y nil))))
          (parse_selector-text b.value sel e) f

  with_value-written :
      (make : Selector → Ipld C → Statement C) (op : Text) (items : List (Operand C))
      (s : Statement C)
      → Makes3 (Ipld C) (λ v. v) make op
      → with_value make op items ≡ ok s
      → Written op items s
  unfolding with_value
  with_value-written make op (a ∷ b ∷ c ∷ []) s m h =
      let (sel, e, h') = >>=-eq-ok (parse_selector b.value) _ h in
      subst (Written op (a ∷ b ∷ c ∷ [])) (ok-injective h')
        (triple_written (Ipld C) (λ v. v) make op a b c sel c.value m e refl)
  with_value-written make op items s m h = absurd (ground arith)

  with_number-written :
      (make : Selector → Number → Statement C) (op : Text) (items : List (Operand C))
      (s : Statement C)
      → Makes3 Number Number.to_ipld make op
      → with_number make op items ≡ ok s
      → Written op items s
  unfolding with_number
  with_number-written make op (a ∷ b ∷ c ∷ []) s m h =
      let (sel, e, h') = >>=-eq-ok (parse_selector b.value) _ h in
      let (n, f, h'') = >>=-eq-ok (ok_or (Number.from_ipld c.value) _) _ h' in
      subst (Written op (a ∷ b ∷ c ∷ [])) (ok-injective h'') (
        triple_written Number Number.to_ipld make op a b c sel n m e
          (Number.to_ipld-from_ipld c.value n (ok_or-eq-ok _ _ f)))
  with_number-written make op items s m h = absurd (ground arith)

  parse_pattern-text : (v : Ipld C) (p : Glob.Pattern) → parse_pattern v ≡ ok p → string p.text ≡ v
  parse_pattern-text (string t) p h =
      unfold Glob.parse in ap (λ (q : Glob.Pattern). string q.text) (sym (ok-injective h))
  parse_pattern-text _ p h = cc

  with_pattern-written :
      (op : Text) (items : List (Operand C)) (s : Statement C)
      → Makes3 Glob.Pattern (λ p. string p.text) Statement.like op
      → with_pattern op items ≡ ok s
      → Written op items s
  unfolding with_pattern
  with_pattern-written op (a ∷ b ∷ c ∷ []) s m h =
      let (p, f, h') = >>=-eq-ok (parse_pattern c.value) _ h in
      let (sel, e, h'') = >>=-eq-ok (parse_selector b.value) _ h' in
      subst (Written op (a ∷ b ∷ c ∷ [])) (ok-injective h'') (
        triple_written Glob.Pattern (λ q. string q.text) Statement.like op a b c sel p m e
          (parse_pattern-text c.value p f))
  with_pattern-written op items s m h = absurd (ground arith)

  with_statements-written :
      (make : Statements C → Statement C) (op : Text) (items : List (Operand C)) (s : Statement C)
      → All Faithful items
      → ((ss : Statements C) → to_ipld (make ss) ≡ pair op (list (to_items ss)))
      → with_statements make op items ≡ ok s
      → Written op items s
  unfolding with_statements
  with_statements-written make op (a ∷ b ∷ []) s all m h =
      let (ss, e, h') = >>=-eq-ok b.as_statements _ h in
      subst (Written op (a ∷ b ∷ [])) (ok-injective h')
        (m ss ∙ ap (λ x. list (cons (string op) (cons x nil))) (all.1.0.1 ss e))
  with_statements-written make op items s all m h = absurd (ground arith)

  with_not-written :
      (op : Text) (items : List (Operand C)) (s : Statement C)
      → All Faithful items
      → ((inner : Statement C) → to_ipld (Statement.not inner) ≡ pair op (to_ipld inner))
      → with_not op items ≡ ok s
      → Written op items s
  unfolding with_not
  with_not-written op (a ∷ b ∷ []) s all m h =
      let (inner, e, h') = >>=-eq-ok b.as_statement _ h in
      subst (Written op (a ∷ b ∷ [])) (ok-injective h')
        (m inner ∙ ap (λ x. list (cons (string op) (cons x nil))) (all.1.0.0 inner e))
  with_not-written op items s all m h = absurd (ground arith)

  with_quantifier-written :
      (make : Selector → Statement C → Statement C) (op : Text) (items : List (Operand C))
      (s : Statement C)
      → All Faithful items
      → Makes3 (Statement C) to_ipld make op
      → with_quantifier make op items ≡ ok s
      → Written op items s
  unfolding with_quantifier
  with_quantifier-written make op (a ∷ b ∷ c ∷ []) s all m h =
      let (sel, e, h') = >>=-eq-ok (parse_selector b.value) _ h in
      let (inner, f, h'') = >>=-eq-ok c.as_statement _ h' in
      subst (Written op (a ∷ b ∷ c ∷ [])) (ok-injective h'')
        (triple_written (Statement C) to_ipld make op a b c sel inner m e (all.1.1.0.0 inner f))
  with_quantifier-written make op items s all m h = absurd (ground arith)

  -- One arm of the `match` on the operator.
  arm :
      (name op : Text) (items : List (Operand C)) (s : Statement C)
      (taken other : Result PolicyError (Statement C))
      → (op ≡ name → taken ≡ ok s → Written op items s)
      → (other ≡ ok s → Written op items s)
      → (if text_eq op name then taken else other) ≡ ok s
      → Written op items s
  arm name op items s taken other f g h = elim (Bool-cases (text_eq op name)) [
    | inl same ↦ f (text_eq→eq op name same) (rw same at h)
    | inr differs ↦ g (rw differs at h)
  ]

  by_operator-written :
      (op : Text) (items : List (Operand C)) (s : Statement C)
      → All Faithful items
      → by_operator op items ≡ ok s
      → Written op items s
  unfolding by_operator to_ipld
  by_operator-written op items s faithful =
      arm (codes "==") op items s _ _
        (λ e t.
          with_value-written Statement.equal op items s (λ sel v. ap (λ o. triple o sel v) (sym e))
            t)
        (arm (codes "!=") op items s _ _
          (λ e t.
            with_value-written Statement.not_equal op items s
              (λ sel v. ap (λ o. triple o sel v) (sym e)) t)
          (arm (codes "<") op items s _ _
            (λ e t.
              with_number-written Statement.less op items s
                (λ sel n. ap (λ o. triple o sel (Number.to_ipld n)) (sym e)) t)
            (arm (codes "<=") op items s _ _
              (λ e t.
                with_number-written Statement.less_or_equal op items s
                  (λ sel n. ap (λ o. triple o sel (Number.to_ipld n)) (sym e)) t)
              (arm (codes ">") op items s _ _
                (λ e t.
                  with_number-written Statement.greater op items s
                    (λ sel n. ap (λ o. triple o sel (Number.to_ipld n)) (sym e)) t)
                (arm (codes ">=") op items s _ _
                  (λ e t.
                    with_number-written Statement.greater_or_equal op items s
                      (λ sel n. ap (λ o. triple o sel (Number.to_ipld n)) (sym e)) t)
                  (arm (codes "like") op items s _ _
                    (λ e t.
                      with_pattern-written op items s
                        (λ sel p. ap (λ o. triple o sel (string p.text)) (sym e)) t)
                    (arm (codes "and") op items s _ _
                      (λ e t.
                        with_statements-written Statement.and op items s faithful
                          (λ ss. ap (λ o. pair o (list (to_items ss))) (sym e)) t)
                      (arm (codes "or") op items s _ _
                        (λ e t.
                          with_statements-written Statement.or op items s faithful
                            (λ ss. ap (λ o. pair o (list (to_items ss))) (sym e)) t)
                        (arm (codes "not") op items s _ _
                          (λ e t.
                            with_not-written op items s faithful
                              (λ inner. ap (λ o. pair o (to_ipld inner)) (sym e)) t)
                          (arm (codes "all") op items s _ _
                            (λ e t.
                              with_quantifier-written Statement.all op items s faithful
                                (λ sel inner. ap (λ o. triple o sel (to_ipld inner)) (sym e)) t)
                            (arm (codes "any") op items s _ _
                              (λ e t.
                                with_quantifier-written Statement.any op items s faithful
                                  (λ sel inner. ap (λ o. triple o sel (to_ipld inner)) (sym e)) t)
                              (λ h. cc))))))))))))

  build-written :
      (items : List (Operand C)) (s : Statement C)
      → All Faithful items
      → build items ≡ ok s
      → to_ipld s ≡ list (written items)
  build-written [] s all h = cc
  build-written (o ∷ os) s all h = first_written o.value refl h
    where
      first_written :
          (v : Ipld C)
          → o.value ≡ v
          → on_first v (o ∷ os) ≡ ok s
          → to_ipld s ≡ list (cons o.value (written os))
      first_written (string op) e k =
          by_operator-written op (o ∷ os) s all k ∙ ap (λ x. list (cons x (written os))) (sym e)
      first_written _ e k = cc

  collect-written :
      (items : List (Operand C)) (ss : Statements C)
      → All Faithful items
      → collect items ≡ ok ss
      → to_items ss ≡ written items
  unfolding to_ipld
  collect-written [] ss all h = ap to_items (sym (ok-injective h))
  collect-written (o ∷ os) ss all h =
      let (s, e, h') = >>=-eq-ok o.as_statement _ h in
      let (rest, f, h'') = >>=-eq-ok (collect os) _ h' in
      ap to_items (sym (ok-injective h''))
      ∙ ap₂ cons (all.0.0 s e) (collect-written os rest all.1 f)

  mutual
    unfolding from_ipld

    from_ipld-written : (v : Ipld C) (s : Statement C) → from_ipld v ≡ ok s → to_ipld s ≡ v
    from_ipld-written (list vs) s h =
        build-written (operands vs) s (operands-Faithful vs) h ∙ ap list (operands-written vs)
    from_ipld-written _ s h = cc

    statement_list-written :
        (v : Ipld C) (ss : Statements C) → statement_list v ≡ ok ss → list (to_items ss) ≡ v
    statement_list-written (list vs) ss h =
        ap list (collect-written (operands vs) ss (operands-Faithful vs) h ∙ operands-written vs)
    statement_list-written _ ss h = cc

    operands-Faithful : (vs : Items C) → All Faithful (operands vs)
    operands-Faithful nil = tt
    operands-Faithful (cons v vs) =
        ((from_ipld-written v, statement_list-written v), operands-Faithful vs)

    operands-written : (vs : Items C) → written (operands vs) ≡ vs
    operands-written nil = refl
    operands-written (cons v vs) = ap (cons v) (operands-written vs)

  policy_items-to_policy : (ss : Statements C) → policy_items (to_policy ss) ≡ to_items ss
  unfolding to_ipld
  policy_items-to_policy Statements.nil = refl
  policy_items-to_policy (Statements.cons s ss) = ap (cons (to_ipld s)) (policy_items-to_policy ss)

  -- A value that `Statement::from_ipld` accepts is what `to_ipld` writes for the statement.
  pub to_ipld-from_ipld : (v : Ipld C) (s : Statement C) → from_ipld v ≡ ok s → to_ipld s ≡ v
  to_ipld-from_ipld v s h = from_ipld-written v s h

  -- A value that `Policy::from_ipld` accepts is what `to_ipld` writes for the policy, selectors,
  -- patterns and numbers included.
  pub policy_to_ipld-policy_from_ipld :
      (v : Ipld C) (p : Policy C) → policy_from_ipld v ≡ ok p → policy_to_ipld p ≡ v
  unfolding policy_from_ipld
  policy_to_ipld-policy_from_ipld (list vs) p h =
      let (ss, e, h') = >>=-eq-ok (collect (operands vs)) _ h in
      ap policy_to_ipld (sym (ok-injective h'))
      ∙ ap list (
          policy_items-to_policy ss
          ∙ collect-written (operands vs) ss (operands-Faithful vs) e
          ∙ operands-written vs)
  policy_to_ipld-policy_from_ipld _ p h = cc
