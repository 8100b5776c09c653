-- ===== src/Dashboard.antt =====
-- dashboard/web/src/data/index.js, lines 36 to 52: what the views read off an event of the audit log.
-- A list of matches is an array, or it is absent or null.
use karna.Common.{Bool, false, not, ◌&&◌, List, [], ◌∷◌, map, any, every, if◌then◌else◌}
use karna.Text.{Text, codes, text_eq, is_empty}
use karna.Value.{Value, null, str, is_truthy, get, elements, items_of}
use karna.Category.{category_for_rule}

-- `v === t` for a text
unfoldable pub is_text : Text → Value → Bool
unfolding text_eq
is_text t (str s) = text_eq s t
is_text t _ = false

-- `primaryMatch(ev)`, `null` without a match
abbrev pub first_or_null : List Value → Value
first_or_null [] = null
first_or_null (m ∷ ms) = m

unfoldable pub primary_match : Value → Value
unfolding get
primary_match ev = first_or_null (elements (items_of (get "matches" ev)))

-- `toLowerCase` is the parameter `lower`.
unfoldable pub event_category : (Text → Text) → Value → Text
unfolding primary_match is_truthy category_for_rule
event_category lower ev =
    let m = primary_match ev in
    if is_truthy m then category_for_rule lower (get "rule_id" m) (get "tags" m) else codes "other"

-- The decision on the actions of the matches.
unfoldable pub disposition_of : List Value → Text
unfolding is_text
disposition_of acts =
    if any (is_text (codes "block")) acts
    then codes "blocked"
    else if any (is_text (codes "rate_limited")) acts
    then codes "rate_limited"
    else if any (is_text (codes "sanitized")) acts
    then codes "sanitized"
    else if any (is_text (codes "detect")) acts
    then codes "detected"
    else if not (is_empty acts) && every (is_text (codes "log")) acts
    then codes "observed"
    else codes "allowed"

unfoldable pub event_disposition : Value → Text
unfolding get disposition_of
event_disposition ev = disposition_of (map (get "action") (elements (items_of (get "matches" ev))))
