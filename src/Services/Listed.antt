-- ===== src/Services/Listed.antt =====
-- What the list of services shows, and in which order.
use karna.Common.{
  ◌≡◌, refl, sym, ap, subst, ◌∙◌, inl, inr, Bool, true, false, not, ◌&&◌, ◌||◌, List, keep, arith,
  Bool-cases, if◌then◌else◌,
}
use karna.Text.{Text, codes, text_eq, is_empty, includes, trim}
use karna.Text.Equality.{text_eq_iff}
use karna.Value.{Value, str, get, to_text}
use karna.Dashboard.{is_text}
use karna.Table.{Order, SortBy, directed, compared, is_more, or_then, sort_by}
use karna.Table.Sorted.{
  Flips, AreOrdered, Before, IsSorted-AreOrdered, or_then-Before, sort_by-Perm, sort_by-IsSorted,
  compared-Flips, directed-Flips, or_then-Flips, keep_same,
}
use karna.Services.{
  Service, own, config, observed, is_blocking, or_empty, Filters, passes, in_order, by_name,
  sort_value, searchable, visible_services,
}
use mathlib.Core.List.{Perm}

in_order-Flips :
    (lower : Text → Text) (difference locale locale_names : Text → Text → Order) (sort : SortBy)
    → Flips difference
    → Flips locale
    → Flips locale_names
    → Flips (in_order lower difference locale locale_names sort)
in_order-Flips lower difference locale locale_names sort d l n =
    or_then-Flips
      (λ a b.
        directed sort.ascending
          (compared difference locale (sort_value sort.key a) (sort_value sort.key b)))
      (by_name lower difference locale locale_names)
      (directed-Flips sort.ascending
        (λ a b. compared difference locale (sort_value sort.key a) (sort_value sort.key b))
        (λ a b.
          compared-Flips difference locale d l (sort_value sort.key a) (sort_value sort.key b)))
      (λ a b. n (to_text (get "name" (own a))) (to_text (get "name" (own b))))

-- The columns of the table, with the value of a service in each.
pub data Column : Type 0 where
  name mode policy requests match_rate routes latency readiness : Column

abbrev pub column_id : Column → Text
column_id name = codes "name"
column_id mode = codes "mode"
column_id policy = codes "policy"
column_id requests = codes "requests"
column_id match_rate = codes "matchRate"
column_id routes = codes "routes"
column_id latency = codes "latency"
column_id readiness = codes "readiness"

abbrev pub value_in : Column → Service → Value
value_in name s = or_empty (get "name" (own s))
value_in mode s = str (if is_blocking s then codes "blocking" else codes "detection")
value_in policy s = get "paranoia_level" (config s)
value_in requests s = get "reqs_24h" (observed s)
value_in match_rate s = get "block_rate" (observed s)
value_in routes s = get "routes" (own s)
value_in latency s = get "latency_p95_ms" (observed s)
value_in readiness s = or_empty (get "status" (observed s))

sort_value-column_id : (c : Column) (s : Service) → sort_value (column_id c) s ≡ value_in c s
unfolding sort_value text_eq
sort_value-column_id name s = refl
sort_value-column_id mode s = refl
sort_value-column_id policy s = refl
sort_value-column_id requests s = refl
sort_value-column_id match_rate s = refl
sort_value-column_id routes s = refl
sort_value-column_id latency s = refl
sort_value-column_id readiness s = refl

-- What a filter of the mode lets through: one mode, or both.
abbrev pub allows_mode : Text → Bool → Bool
allows_mode chosen blocking =
    if text_eq chosen (codes "blocking")
    then blocking
    else if text_eq chosen (codes "detection")
    then not blocking
    else true

allows_mode_lem :
    (chosen : Text) (blocking : Bool)
    → (not (text_eq chosen (codes "blocking") && not blocking)
        && not (text_eq chosen (codes "detection") && blocking))
      ≡ allows_mode chosen blocking
allows_mode_lem chosen blocking = elim (Bool-cases (text_eq chosen (codes "blocking"))) [
  | inl is_blocking_mode ↦
      let same_text : chosen ≡ codes "blocking" =
        (text_eq_iff chosen (codes "blocking")).0 is_blocking_mode in
      let other : text_eq chosen (codes "detection") ≡ false =
        subst (λ t. text_eq t (codes "detection") ≡ false) (sym same_text)
          (unfold text_eq in refl) in
      ground (arith, is_blocking_mode, other)
  | inr not_blocking ↦ ground (arith, not_blocking)
]

module _ (lower : Text → Text) where
  -- Whether the filters let a service through: its mode, its status, and a text of the search in what it shows.
  abbrev pub is_shown : Filters → Service → Bool
  is_shown f s =
      allows_mode f.mode_filter (is_blocking s)
      && ((text_eq f.status_filter (codes "all")
            || is_text f.status_filter (get "status" (observed s)))
          && (is_empty (lower (trim f.query))
              || includes (lower (trim f.query)) (lower (searchable s))))

  module _ (difference locale locale_names : Text → Text → Order) where
    passes-is_shown :
        (f : Filters) (s : Service) → passes lower difference locale locale_names f s ≡ is_shown f s
    unfolding passes
    passes-is_shown f s = ground (arith, allows_mode_lem f.mode_filter (is_blocking s))

    -- Which service may stand right before which in a column.
    abbrev pub StandsBefore : Column → Bool → Service → Service → Type 0
    StandsBefore c ascending a b =
        Before ascending (compared difference locale (value_in c a) (value_in c b))
          (locale_names (to_text (get "name" (own a))) (to_text (get "name" (own b))))

    -- The list shows each service once that the filters of the mode, of the status and of the search let through,
    -- and no other. It is sorted by the value of the chosen column: of two neighbours the first has the lower value
    -- when the direction is ascending and the higher one when it is descending, or their values compare the same
    -- and the name of the first does not come after that of the second. The condition is that the comparisons of
    -- JavaScript change their sign when their arguments are swapped.
    pub visible_services_lem :
        Flips difference
        → Flips locale
        → Flips locale_names
        → (f : Filters) (c : Column) (services : List Service) → f.sort.key ≡ column_id c
        → Perm
            (visible_services lower difference locale locale_names f services)
            (keep (is_shown f) services)
          × AreOrdered
              (StandsBefore c f.sort.ascending)
              (visible_services lower difference locale locale_names f services)
    unfolding visible_services
    visible_services_lem d l n f c services chosen =
        let order = in_order lower difference locale locale_names f.sort in
        let rows = keep (passes lower difference locale locale_names f) services in
        let value : (s : Service) → sort_value f.sort.key s ≡ value_in c s =
          λ s. ap (λ k. sort_value k s) chosen ∙ sort_value-column_id c s in
        (
          subst (λ ys. Perm (sort_by order rows) ys)
              (keep_same (passes lower difference locale locale_names f) (is_shown f) services
                (passes-is_shown f))
              (sort_by-Perm order rows),
          IsSorted-AreOrdered order (StandsBefore c f.sort.ascending) (sort_by order rows)
              (λ a b h.
                or_then-Before f.sort.ascending
                  (compared difference locale (value_in c a) (value_in c b))
                  (by_name lower difference locale locale_names a b)
                  (subst
                    (λ (v : Value).
                      is_more (
                        or_then
                          (directed f.sort.ascending (compared difference locale v (value_in c b)))
                          (by_name lower difference locale locale_names a b))
                      ≡ false)
                    (value a)
                    (subst
                      (λ (w : Value).
                        is_more (
                          or_then
                            (directed f.sort.ascending
                              (compared difference locale (sort_value f.sort.key a) w))
                            (by_name lower difference locale locale_names a b))
                        ≡ false)
                      (value b) h)))
              (sort_by-IsSorted order
                (in_order-Flips lower difference locale locale_names f.sort d l n) rows),
        )
