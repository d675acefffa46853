-- ===== src/Validate/Structure.antt =====
-- src/validate.rs: what `check_structure` establishes, hop by hop, and why it attenuates.
use pq_ucan.Base.{
  ℕ, suc, ◌+◌, ◌≡◌, ◌↔◌, refl, ap, subst, Bool, true, false, not, List, [], ◌∷◌, Option, none, some,
  Result, ok, ◌>>◌, then_iff, ensure_iff, All, arith,
}
use pq_ucan.Base.{ensure_both_iff}
use native.Mathlib.Nat.{add-zero}
use pq_ucan.Command.{Command, covers}
use pq_ucan.Command.Laws.{IsCommand, covers_trans}
use pq_ucan.Did.{Did, same_principal}
use pq_ucan.Token.{Delegation, Subject, did, powerline}
use pq_ucan.Validate.Errors.{ValidationError}
use pq_ucan.Validate.Loops.{for_each, for_each_iff, for_each-All, AllPass}
use pq_ucan.Validate.Chain.{
  Next, next_of, is_powerline, check_root, check_subject, next_at, check_link, check_structure,
}

not-true : {b : Bool} → not b ≡ true → b ≡ false
not-true {b} h = ground arith

-- A subject is the given one, or is inherited.
abbrev pub AlignsWith : Did → Subject → Type 0
AlignsWith subject (did d) = same_principal d subject ≡ true
AlignsWith subject powerline = Unit

module _ {C : Type 0} where
  -- A delegation was made to the issuer of the next token, for a command that covers the next one's.
  abbrev pub Grants : Delegation C → Next → Type 0
  Grants d (issuer, command) =
      (same_principal d.payload.audience issuer ≡ true) × (covers d.payload.command command ≡ true)

  -- Each delegation grants to the next, and the last one to the token behind the chain, if any.
  abbrev pub Linked : List (Delegation C) → Option Next → Type 0
  Linked [] last = Unit
  Linked (d ∷ []) none = Unit
  Linked (d ∷ []) (some next) = Grants d next
  Linked (d ∷ e ∷ ds) last = Grants d (next_of e) × Linked (e ∷ ds) last

  -- The root is issued by the subject, and names it.
  abbrev pub Rooted : Did → List (Delegation C) → Type 0
  Rooted subject [] = ⊥
  Rooted subject (root ∷ ds) =
      (same_principal root.payload.issuer subject ≡ true)
      × (is_powerline root.payload.subject ≡ false)

  pub record Structured (chain : List (Delegation C)) (subject : Did) (last : Option Next)
      : Type 0 where
    pub rooted : Rooted subject chain
    pub aligned : All (λ d. AlignsWith subject d.payload.subject) chain
    pub linked : Linked chain last

  check_subject_iff :
      (subject : Did) (i : ℕ) (s : Subject)
      → (check_subject {C = C} subject i s ≡ ok tt) ↔ AlignsWith subject s
  check_subject_iff subject i (did d) = ensure_iff (same_principal d subject) _
  check_subject_iff subject i powerline = (λ _. tt, λ _. refl)

  abbrev GrantsMaybe : Delegation C → Option Next → Type 0
  GrantsMaybe d none = Unit
  GrantsMaybe d (some next) = Grants d next

  check_link_iff :
      (i : ℕ) (d : Delegation C) (next : Option Next)
      → (check_link i d next ≡ ok tt) ↔ GrantsMaybe d next
  check_link_iff i d none = (λ _. tt, λ _. refl)
  check_link_iff i d (some (issuer, command)) =
      ensure_both_iff (same_principal d.payload.audience issuer) (covers d.payload.command command)
        _ _

  Linked-one : (d : Delegation C) (last : Option Next) → GrantsMaybe d last ↔ Linked (d ∷ []) last
  Linked-one d none = (λ _. tt, λ _. tt)
  Linked-one d (some next) = (λ g. g, λ g. g)

  abbrev link : (ℕ → Option Next) → ℕ → Delegation C → Result (ValidationError C) (Unit {0})
  link next i d = check_link i d (next i)

  link_here :
      (i : ℕ) (d : Delegation C) (next : ℕ → Option Next) (n : Option Next)
      → next (i + 0) ≡ n
      → (link next i d ≡ ok tt) ↔ GrantsMaybe d n
  link_here i d next n e =
      let same : next i ≡ n = subst (λ k. next k ≡ n) (add-zero i) e in
      rw same (check_link_iff i d n)

  -- The loop over positions checks each delegation against its neighbour.
  links_iff :
      (i : ℕ) (next : ℕ → Option Next) (last : Option Next) (ds : List (Delegation C))
      → ((j : ℕ) → next (i + j) ≡ next_at ds last j)
      → AllPass i (link next) ds ↔ Linked ds last
  links_iff i next last [] h = (λ _. tt, λ _. tt)
  links_iff i next last (d ∷ []) h =
      let here = link_here i d next last (h 0) in
      let one = Linked-one d last in (λ p. one.0 (here.0 p.0), λ l. (here.1 (one.1 l), tt))
  links_iff i next last (d ∷ e ∷ ds) h =
      let here = link_here i d next (some (next_of e)) (h 0) in
      let rest =
        links_iff (suc i) next last (e ∷ ds)
          (λ j. subst (λ k. next k ≡ next_at (e ∷ ds) last j) (omega arith) (h (suc j))) in
      (λ p. (here.0 p.0, rest.0 p.1), λ l. (here.1 l.0, rest.1 l.1))

  check_root_iff :
      (root : Delegation C) (subject : Did)
      → (check_root root subject ≡ ok tt) ↔ (
          (same_principal root.payload.issuer subject ≡ true)
          × (is_powerline root.payload.subject ≡ false))
  check_root_iff root subject =
      let both =
        ensure_both_iff (same_principal root.payload.issuer subject)
          (not (is_powerline root.payload.subject)) _ _ in
      (λ h. let (a, b) = both.0 h in (a, not-true b), λ (a, b). both.1 (a, ap not b))

  -- `check_structure` accepts exactly the chains that start with a delegation by the subject which
  -- names it, in which every subject is that one or inherited, and in which each delegation was made
  -- to the issuer of the next token for a command that covers the next one's.
  pub check_structure_iff :
      (chain : List (Delegation C)) (subject : Did) (last : Option Next)
      → (check_structure chain subject last ≡ ok tt) ↔ Structured chain subject last
  unfolding check_structure
  check_structure_iff [] subject last = (λ h. cc, λ s. absurd s.rooted)
  check_structure_iff (root ∷ ds) subject last =
      let chain : List (Delegation C) = root ∷ ds in
      let aligned : ℕ → Delegation C → Result (ValidationError C) (Unit {0}) =
        λ i d. check_subject subject i d.payload.subject in
      let linked = link (next_at chain last) in
      let checks =
        then_iff (check_root root subject) (for_each 0 aligned chain >> for_each 0 linked chain) in
      let loops = then_iff (for_each 0 aligned chain) (for_each 0 linked chain) in
      let subjects =
        for_each-All (λ d. AlignsWith subject d.payload.subject) aligned chain
          (λ i d. check_subject_iff subject i d.payload.subject) in
      let links = for_each_iff 0 linked chain in
      let start : (k : ℕ) → 0 + k ≡ k = λ k. omega arith in
      let grants =
        links_iff 0 (next_at chain last) last chain (λ k. ap (next_at chain last) (start k)) in
      let rooted = check_root_iff root subject in
      (
        λ h.
            let (a, b) = checks.0 h in
            let (c, d) = loops.0 b in
            record { rooted = rooted.0 a; aligned = subjects.0 c; linked = grants.0 (links.0 d) },
        λ s.
            checks.1
              (rooted.1 s.rooted, loops.1 (subjects.1 s.aligned, links.1 (grants.1 s.linked))),
      )

  -- The last token of a chain, or the next one of a delegation: everything in front covers it.
  pub covers_last :
      (ds : List (Delegation C)) (issuer : Did) (command : Command)
      → IsCommand command
      → All (λ d. IsCommand d.payload.command) ds
      → Linked ds (some (issuer, command))
      → All (λ d. covers d.payload.command command ≡ true) ds
  covers_last [] issuer command h hs l = tt
  covers_last (d ∷ []) issuer command h hs l = (l.1, tt)
  covers_last (d ∷ e ∷ ds) issuer command h hs l =
      let rest = covers_last (e ∷ ds) issuer command h hs.1 l.1 in
      (covers_trans d.payload.command e.payload.command command hs.0 hs.1.0 h l.0.1 rest.0, rest)
