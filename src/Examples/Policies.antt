-- ===== src/Examples/Policies.antt =====
-- Tests of src/policy.
use pq_ucan.Base.{
  ℕ, ◌-◌, ◌<◌, ◌≤◌, ◌+◌, ◌≡◌, ◌≢◌, ◌↔◌, ◌⊎◌, refl, List, [], ◌∷◌, none, some, pos, negsuc, neg_part,
  true, false, codes, ok, err, arith, length, take, drop,
}
use pq_ucan.Examples.{same_number}
use pq_ucan.Ipld.{Ipld, nil, cons, end, field}
use pq_ucan.Policy.Eval.{check}
use pq_ucan.Policy.Eval.Laws.{Holds, FirstFailure, check_iff}
use pq_ucan.Policy.Glob
use pq_ucan.Policy.Glob.{matches}
use pq_ucan.Policy.Glob.Language.{Matches, items}
use pq_ucan.Policy.Glob.Decide.{matches_iff}
use pq_ucan.Policy.Glob.Compile.{matches-parse}
use pq_ucan.Policy.Selector.{Segment, key, index, index_in, sliced, identity, resolve_from}
use pq_ucan.Policy.Selector.Laws.{index_in_iff, sliced_iff, Selects}
use pq_ucan.Policy.Selector.Resolve.{Leads, Breaks, resolve_from_iff}
use pq_ucan.Policy.Selector.Parse as SelectorParse
use pq_ucan.Policy.Selector.Scan.{Completes}
use pq_ucan.Policy.Selector.Total.{parse-Completes}
use pq_ucan.Policy.Syntax.{Policy, Statement}
use pq_ucan.Policy.Wire.{policy_from_ipld, policy_to_ipld}
use pq_ucan.Policy.Wire.RoundTrip.{policy_to_ipld-policy_from_ipld}

matches-parse_example :
    (matches (Glob.parse (codes "a*c")) (codes "abc") ≡ some true)
    ↔ Matches (items (codes "a*c")) (codes "abc")
matches-parse_example = matches-parse (codes "a*c") (codes "abc")

matches_iff_example :
    ((matches (Glob.parse (codes "a*c")) (codes "abd") ≡ some true)
      ↔ Matches (Glob.parse (codes "a*c")).tokens (codes "abd"))
    × (matches (Glob.parse (codes "a*c")) (codes "abd") ≢ none)
matches_iff_example = matches_iff (Glob.parse (codes "a*c")) (codes "abd")

abbrev strict : Policy ℕ
strict = Statement.equal identity Ipld.null ∷ []

abbrev lenient : Policy ℕ
lenient = Statement.not_equal identity Ipld.null ∷ []

check_iff_example :
    ((check same_number strict Ipld.null ≡ ok tt) ↔ Holds same_number Ipld.null strict)
    × ((i : ℕ)
        → check same_number strict Ipld.null ≡ err i
        → FirstFailure same_number Ipld.null strict i)
check_iff_example = check_iff same_number strict Ipld.null

index_in_iff_example :
    (index_in 5 (negsuc 0) ≡ some 4)
    ↔ ((4 < 5) × ((negsuc 0 ≡ pos 4) ⊎ (neg_part (negsuc 0) + 4 ≡ 5)))
index_in_iff_example = index_in_iff 5 4 (negsuc 0) (ground arith)

abbrev five : List ℕ
five = 1 ∷ 2 ∷ 3 ∷ 4 ∷ 5 ∷ []

sliced_iff_example :
    (s : ℕ) × (e : ℕ) × (sliced five (some (pos 1)) (some (negsuc 0))
      ≡ some (take (e - s) (drop s five)))
    × (length (take (e - s) (drop s five)) ≡ e - s)
    × ((k : ℕ) → ((s ≤ k) × (k < e)) ↔ Selects (length five) (some (pos 1)) (some (negsuc 0)) k)
sliced_iff_example = sliced_iff five (some (pos 1)) (some (negsuc 0)) (omega arith)

parse-Completes_example :
    Completes (λ s. s.text ≡ codes ".a[0]") (SelectorParse.parse (codes ".a[0]"))
parse-Completes_example = parse-Completes (codes ".a[0]")

-- A policy on the wire: the message must come from Alice.
abbrev wire : Ipld ℕ
wire = Ipld.list (
    cons
      (Ipld.list (
        cons (Ipld.string (codes "=="))
          (cons (Ipld.string (codes ".from")) (cons (Ipld.string (codes "alice")) nil))))
      nil)

abbrev read : Policy ℕ
read =
    Statement.equal
      (record {
        text = codes ".from";
        segments = record { kind = key (codes "from"); optional = false } ∷ [];
      })
      (Ipld.string (codes "alice"))
    ∷ []

wire_is_read : policy_from_ipld wire ≡ ok read
unfolding policy_from_ipld
wire_is_read = refl

policy_to_ipld-policy_from_ipld_example : policy_to_ipld read ≡ wire
policy_to_ipld-policy_from_ipld_example = policy_to_ipld-policy_from_ipld wire read wire_is_read

abbrev root : Ipld ℕ
root = Ipld.map (field (codes "a") (Ipld.list (cons (Ipld.integer (pos 7)) nil)) end)

abbrev a_first : List Segment
a_first =
    record { kind = key (codes "a"); optional = false }
    ∷ record { kind = index (pos 0); optional = false }
    ∷ []

resolve_from_iff_example :
    ((v : Ipld ℕ)
      → (resolve_from root a_first ≡ some v)
        ↔ (Leads root a_first v ⊎ ((v ≡ Ipld.null) × Breaks root a_first true)))
    × ((resolve_from root a_first ≡ none) ↔ Breaks root a_first false)
resolve_from_iff_example = resolve_from_iff root a_first
