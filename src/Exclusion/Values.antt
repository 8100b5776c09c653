-- ===== src/Exclusion/Values.antt =====
-- exclusions.js, lines 67 to 88: the lists of values that a user types, and the groups of them.
pub mod Split
use karna.Common.{
  ℕ, Bool, not, ◌&&◌, ◌||◌, List, [], ◌∷◌, ◌++◌, map, ltb, ◌+◌, ◌==◌, if◌then◌else◌, length, keep,
  every,
}
use karna.Text.{Text, is_empty, is_space, trim, strip, split_runs, contains, text_eq}

-- `[\n,]`
abbrev pub is_separator : ℕ → Bool
is_separator c = c == b',' || c == 10

-- `.filter((item) => item && !seen.has(item) && seen.add(item))`
unfoldable pub filter_unseen : List Text → List Text → List Text
unfolding contains
filter_unseen seen [] = []
filter_unseen seen (item ∷ rest) =
    let skipped = filter_unseen seen rest in
    let taken = item ∷ filter_unseen (item ∷ seen) rest in
    if not (is_empty item) && not (contains item seen) then taken else skipped

unfoldable pub split_exclusion_values : Text → List Text
unfolding split_runs strip is_space filter_unseen text_eq
split_exclusion_values value = filter_unseen [] (map (λ s. trim s) (split_runs is_separator value))

-- `{ selectors, targets }`; an absent text is the empty one
pub record Group : Type 0 where
  pub selectors : Text
  pub targets : Text

-- What a form holds; an absent text is the empty one, and what is no array is the empty list.
pub record ExclusionFields : Type 0 where
  pub remove_rule_ids : Text
  pub remove_tags : Text
  pub target_rule_groups : List Group
  pub target_tag_groups : List Group

abbrev pub is_populated : Group → Bool
is_populated g = not (is_empty (trim g.selectors)) || not (is_empty (trim g.targets))

unfoldable pub populated_groups : List Group → List Group
unfolding strip is_space
populated_groups gs = keep is_populated gs

abbrev pub is_complete : Group → Bool
is_complete g =
    not (is_empty (split_exclusion_values g.selectors))
    && not (is_empty (split_exclusion_values g.targets))

unfoldable pub exclusion_input_valid : ExclusionFields → Bool
unfolding split_exclusion_values populated_groups
exclusion_input_valid x =
    let direct =
      length (split_exclusion_values x.remove_rule_ids)
      + length (split_exclusion_values x.remove_tags) in
    let rule_groups = populated_groups x.target_rule_groups in
    let tag_groups = populated_groups x.target_tag_groups in
    every is_complete (rule_groups ++ tag_groups)
    && (ltb 0 direct || ltb 0 (length rule_groups) || ltb 0 (length tag_groups))
