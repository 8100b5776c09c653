-- ===== src/Exclusion/Draft/RuleId.antt =====
-- The id of a drafted rule.
use karna.Common.{
  ℕ, ◌≤◌, ◌≡◌, refl, true, not, inl, inr, [], ◌∷◌, ◌++◌, arith, Bool-cases, length, length-append,
  length-take_le, All, All-append, All-take, All-of_every,
}
use karna.Text.{Text, codes, starts_sep, strip}
use karna.Text.Trim.{strip-All}
use karna.Exclusion.Target.{clipped}
use karna.Exclusion.Draft.{
  is_id_char, is_underscore, replace_runs, rule_suffix, exclusion_target_name, text_or,
  exclusion_rule_id,
}

abbrev pub IsIdText : Text → Type 0
IsIdText s = All (λ c. is_id_char c ≡ true) s

replace_runs-IsIdText : (s : Text) → IsIdText (replace_runs s)
unfolding replace_runs
replace_runs-IsIdText [] = tt
replace_runs-IsIdText (c ∷ s) = elim (Bool-cases (is_id_char c)) [
  | inl plain ↦ rw plain (plain, replace_runs-IsIdText s)
  | inr other ↦ rw other (elim (Bool-cases (starts_sep (λ d. not (is_id_char d)) s)) [
    | inl run ↦ rw run (replace_runs-IsIdText s)
    | inr last ↦ rw last (refl, replace_runs-IsIdText s)
  ])
]

rule_suffix-IsIdText : (source_rule_id target : Text) → IsIdText (rule_suffix source_rule_id target)
unfolding rule_suffix
rule_suffix-IsIdText source_rule_id target =
    let raw = clipped source_rule_id ++ (codes "_" ++ exclusion_target_name target) in
    All-take (λ c. is_id_char c ≡ true) 80 (strip is_underscore (replace_runs raw))
      (strip-All is_underscore (λ c. is_id_char c ≡ true) (replace_runs raw)
        (replace_runs-IsIdText raw))

length-rule_suffix :
    (source_rule_id target : Text) → length (rule_suffix source_rule_id target) ≤ 80
unfolding rule_suffix
length-rule_suffix source_rule_id target = length-take_le 80 _

text_or-IsIdText : (s d : Text) → IsIdText s → IsIdText d → IsIdText (text_or s d)
text_or-IsIdText [] d h k = k
text_or-IsIdText (c ∷ s) d h k = h

length-text_or : (n : ℕ) (s d : Text) → length s ≤ n → length d ≤ n → length (text_or s d) ≤ n
length-text_or n [] d h k = k
length-text_or n (c ∷ s) d h k = h

-- Whatever the event, the drafted rule id holds only letters, digits, `_` and `-`, and has at
-- most 88 of them.
pub exclusion_rule_id-IsIdText :
    (source_rule_id target : Text)
    → IsIdText (exclusion_rule_id source_rule_id target)
      × (length (exclusion_rule_id source_rule_id target) ≤ 88)
exclusion_rule_id-IsIdText source_rule_id target =
    let suffix = rule_suffix source_rule_id target in
    let chars = rule_suffix-IsIdText source_rule_id target in
    let short =
      length-text_or 80 suffix (codes "false_positive") (length-rule_suffix source_rule_id target)
        (omega arith) in
    unfold exclusion_rule_id in
    (
      All-append (λ c. is_id_char c ≡ true) (codes "exclude_") _
          (All-of_every is_id_char (codes "exclude_") refl)
          (text_or-IsIdText suffix (codes "false_positive") chars
            (All-of_every is_id_char (codes "false_positive") refl)),
      omega (
        arith,
        short,
        length-append (codes "exclude_") (text_or suffix (codes "false_positive")),
      ),
    )
