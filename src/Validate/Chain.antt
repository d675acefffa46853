-- ===== src/Validate/Chain.antt =====
-- src/validate.rs: `check_structure`, the checks on the shape of a chain.
use pq_ucan.Base.{
  ℕ, suc, Bool, true, false, not, List, [], ◌∷◌, Option, none, some, get_elem?, Result, ok, ◌>>=◌,
  ◌>>◌, ok_or, ensure,
}
use pq_ucan.Command.{Command, covers}
use pq_ucan.Did.{Did, same_principal}
use pq_ucan.Token.{Delegation, Subject, did, powerline}
use pq_ucan.Validate.Errors.{
  proof, ValidationError, empty_chain, root_not_subject, powerline_at_root, subject_mismatch,
  principal_mismatch, command_not_covered,
}
use pq_ucan.Validate.Loops.{for_each}

-- The issuer and the command of a token.
abbrev pub Next : Type 0
Next = Did × Command

abbrev pub is_powerline : Subject → Bool
is_powerline powerline = true
is_powerline (did d) = false

module _ {C : Type 0} where
  abbrev pub next_of : Delegation C → Next
  next_of d = (d.payload.issuer, d.payload.command)

  abbrev pub first? : List (Delegation C) → Option (Delegation C)
  first? [] = none
  first? (d ∷ ds) = some d

  -- 3, 4: the root is issued by the subject and is not a powerline.
  abbrev pub check_root : Delegation C → Did → Result (ValidationError C) (Unit {0})
  check_root root subject = do
    ensure (same_principal root.payload.issuer subject)
        (root_not_subject root.payload.issuer subject)
    ensure (not (is_powerline root.payload.subject)) powerline_at_root

  -- 5: subjects align.
  abbrev pub check_subject : Did → ℕ → Subject → Result (ValidationError C) (Unit {0})
  check_subject subject i (did d) = ensure (same_principal d subject) (subject_mismatch (proof i))
  check_subject subject i powerline = ok tt

  -- `chain.get(i + 1).map(...).or(last)`.
  abbrev pub next_at : List (Delegation C) → Option Next → ℕ → Option Next
  next_at chain last i = elim (get_elem? chain (suc i)) [ some d ↦ some (next_of d) | none ↦ last ]

  -- 6, 7: a hop's audience issues the next token, and its command covers the next token's.
  abbrev pub check_link : ℕ → Delegation C → Option Next → Result (ValidationError C) (Unit {0})
  check_link i d none = ok tt
  check_link i d (some (issuer, command)) = do
    ensure (same_principal d.payload.audience issuer)
        (principal_mismatch (proof i) d.payload.audience issuer)
    ensure (covers d.payload.command command)
        (command_not_covered (proof i) d.payload.command command)

  -- The checks on a chain that has a root.
  abbrev pub check_hops :
      List (Delegation C) → Did → Option Next → Delegation C → Result (ValidationError C) (Unit {0})
  check_hops chain subject last root = do
    check_root root subject
    for_each 0 (λ i d. check_subject subject i d.payload.subject) chain
    for_each 0 (λ i d. check_link i d (next_at chain last i)) chain

  unfoldable pub check_structure :
      List (Delegation C) → Did → Option Next → Result (ValidationError C) (Unit {0})
  unfolding same_principal covers
  check_structure chain subject last = do
    root ← ok_or (first? chain) empty_chain
    check_hops chain subject last root
