-- ===== src/Palette/Targets.antt =====
-- Where the results of the palette lead.
use karna.Common.{
  ◌⊎◌, All-mono, get_elem?, suc, ℕ, ◌≡◌, refl, ◌≤◌, inl, inr, Option, some, Bool, true, ◌||◌, List,
  [], ◌∷◌, ◌++◌, map, All, All-take, All-append, All-map_of, keep, take, length, length-take_le,
  Bool-cases,
}
use karna.Text.{Text, codes, contains, text_eq, is_empty, trim}
use karna.Value.{Value, undefined, str, get}
use karna.Router.{views}
use karna.Palette.{
  services, local_rules, Item, keep_or_throw, map_or_throw, view_items, Result, Data, view_result,
  service_result, rule_result, event_of, event_result, hit, is_event_hit, service_results,
  rule_results, shown_events, build_results,
}
use karna.Palette.Complete.{is_complete, part_present, complete_parts, is_event_hit_total}

abbrev IsRouted : Result → Type 0
IsRouted r = contains r.view views ≡ true

All-keep : {A : Type 0} (P : A → Type 0) (p : A → Bool) (xs : List A) → All P xs → All P (keep p xs)
All-keep P p [] h = tt
All-keep P p (x ∷ xs) (h, hs) = elim (Bool-cases (p x)) [
  | inl kept ↦ rw kept (h, All-keep P p xs hs)
  | inr dropped ↦ rw dropped (All-keep P p xs hs)
]

view_items-IsRouted : All (λ v. IsRouted (view_result v)) view_items
unfolding contains text_eq
view_items-IsRouted = (refl, (refl, (refl, (refl, (refl, (refl, tt))))))

-- An item of a list.
module _ {A : Type 0} where
  abbrev pub Among : A → List A → Type 0
  Among v vs = (i : ℕ) × (get_elem? vs i ≡ some v)

  each_item : (xs : List A) → All (λ x. Among x xs) xs
  each_item [] = tt
  each_item (x ∷ xs) = (
    (0, refl),
    All-mono (λ y. Among y xs) (λ y. Among y (x ∷ xs)) xs (λ y m. (suc m.0, m.1)) (each_item xs),
  )

  both_all : (P Q : A → Type 0) (xs : List A) → All P xs → All Q xs → All (λ x. P x × Q x) xs
  both_all P Q [] h k = tt
  both_all P Q (x ∷ xs) (h, hs) (k, ks) = ((h, k), both_all P Q xs hs ks)

kept_all :
    {A : Type 0} (P : A → Type 0) (p : A → Option Bool) (xs : List A)
    → ((x : A) → P x → (b : Bool) × (p x ≡ some b))
    → All P xs
    → (ys : List A) × ((keep_or_throw p xs ≡ some ys) × All P ys)
kept_all P p [] f h = ([], (refl, tt))
kept_all P p (x ∷ xs) f (h, hs) =
    let (b, e) = f x h in
    let (ys, (es, all)) = kept_all P p xs f hs in
    elim (Bool-cases b) [
      | inl true_here ↦ (x ∷ ys, (rw (e, es, true_here) refl, (h, all)))
      | inr false_here ↦ (ys, (rw (e, es, false_here) refl, all))
    ]

mapped_all :
    {A B : Type 0} (P : A → Type 0) (Q : B → Type 0) (f : A → Option B) (xs : List A)
    → ((x : A) → P x → (y : B) × ((f x ≡ some y) × Q y))
    → All P xs
    → (ys : List B) × ((map_or_throw f xs ≡ some ys) × All Q ys)
mapped_all P Q f [] g h = ([], (refl, tt))
mapped_all P Q f (x ∷ xs) g (h, hs) =
    let (y, (e, q)) = g x h in
    let (ys, (es, qs)) = mapped_all P Q f xs g hs in (y ∷ ys, (rw (e, es) refl, (q, qs)))

module _ (lower : Text → Text) where
  -- What a result stands for, and where it leads: a view of the menu, a service by its id, the rules, or an event
  -- by its request's id.
  abbrev pub IsFound : Data → Result → Type 0
  IsFound d r =
      ((v : Item) × (Among v view_items
          × ((r.kind ≡ codes "Go to") × ((r.view ≡ v.view) × (r.param ≡ undefined)))))
      ⊎ (((s : Value) × (Among s (services d)
              × ((r.kind ≡ codes "Service")
                  × ((r.view ≡ codes "services") × (r.param ≡ get "id" s)))))
          ⊎ (((rule : Value) × (Among rule (local_rules d)
                  × ((r.kind ≡ codes "Rule")
                      × ((r.view ≡ codes "rules") × (r.primary ≡ get "id" rule)))))
              ⊎ ((e : Value) × (Among e d.events
                    × ((r.kind ≡ codes "Event")
                        × ((r.view ≡ codes "events") × (r.param ≡ get "request_id" e)))))))

  abbrev pub IsGood : Data → Result → Type 0
  IsGood d r = (contains r.view views ≡ true) × IsFound d r

  event_result_total :
      (d : Data) (e : Value)
      → (is_complete e ≡ true) × Among e d.events
      → (r : Result) × ((event_result lower e ≡ some r) × IsGood d r)
  unfolding event_result contains text_eq
  event_result_total d e (h, among) =
      let (client, (request, service)) = complete_parts e h in
      let (ip, ip_read) = part_present "client" "ip" e client in
      let (uri, uri_read) = part_present "request" "uri" e request in
      let (method, method_read) = part_present "request" "method" e request in
      (
        event_of lower e method uri ip,
        (
          rw (method_read, uri_read, ip_read) refl,
          (refl, inr (inr (inr (e, (among, (refl, (refl, refl))))))),
        ),
      )

  events_total :
      (needle : Text) (d : Data)
      → All (λ e. is_complete e ≡ true) d.events
      → (results : List Result) × ((shown_events lower
              (keep_or_throw (is_event_hit lower needle) d.events)
            ≡ some results)
          × All (IsGood d) results)
  events_total needle d h =
      let P : Value → Type 0 = λ e. (is_complete e ≡ true) × Among e d.events in
      let (hits, (kept_hits, complete)) =
        kept_all P (is_event_hit lower needle) d.events
          (λ e p. is_event_hit_total lower needle e (p.0))
          (both_all (λ e. is_complete e ≡ true) (λ e. Among e d.events) d.events h
            (each_item d.events)) in
      let (results, (mapped, good)) =
        mapped_all P (IsGood d) (event_result lower) (take 6 hits) (event_result_total d)
          (All-take P 6 hits complete) in
      (results, (rw kept_hits mapped, good))

  views-IsGood :
      (needle : Text) (d : Data)
      → All (IsGood d) (
          map view_result
            (keep (λ v. is_empty needle || hit lower needle (str v.label)) view_items))
  views-IsGood needle d =
      let P : Item → Type 0 = λ v. IsRouted (view_result v) × Among v view_items in
      All-map_of P (IsGood d) view_result _ (λ v p. (p.0, inl (v, (p.1, (refl, (refl, refl))))))
        (All-keep P (λ v. is_empty needle || hit lower needle (str v.label)) view_items
          (both_all (λ v. IsRouted (view_result v)) (λ v. Among v view_items) view_items
            view_items-IsRouted (each_item view_items)))

  services-IsGood :
      (needle : Text) (d : Data) → All (IsGood d) (service_results lower needle (services d))
  unfolding contains text_eq
  services-IsGood needle d =
      All-map_of (λ s. Among s (services d)) (IsGood d) service_result _
        (λ s m. (refl, inr (inl (s, (m, (refl, (refl, refl)))))))
        (All-take (λ s. Among s (services d)) 5 _
          (All-keep (λ s. Among s (services d)) _ (services d) (each_item (services d))))

  rules-IsGood :
      (needle : Text) (d : Data) → All (IsGood d) (rule_results lower needle (local_rules d))
  unfolding contains text_eq
  rules-IsGood needle d =
      All-map_of (λ r. Among r (local_rules d)) (IsGood d) rule_result _
        (λ r m. (refl, inr (inr (inl (r, (m, (refl, (refl, refl))))))))
        (All-take (λ r. Among r (local_rules d)) 5 _
          (All-keep (λ r. Among r (local_rules d)) _ (local_rules d) (each_item (local_rules d))))

  -- If every event has a client, a request and a service, then every search gives its results and does not throw on
  -- a part that is missing. There are at most twelve. Each of them leads to a view that the router knows, so that
  -- choosing it is never ignored: to a view of its menu, to a service of the dashboard by its id, to the rules for
  -- a rule of the dashboard, or to an event of the dashboard by its request id.
  pub build_results-IsGood :
      (q : Text) (d : Data)
      → All (λ e. is_complete e ≡ true) d.events
      → (results : List Result) × ((build_results lower q d ≡ some results)
          × (All (IsGood d) results × (length results ≤ 12)))
  unfolding build_results
  build_results-IsGood q d h =
      let needle = lower (trim q) in
      let goes =
        map view_result
          (keep (λ v. is_empty needle || hit lower needle (str v.label)) view_items) in
      let others =
        service_results lower needle (services d) ++ rule_results lower needle (local_rules d) in
      elim (Bool-cases (is_empty needle)) [
        | inl nothing ↦ (
          take 12 goes,
          (
            rw nothing refl,
            (All-take (IsGood d) 12 goes (views-IsGood needle d), length-take_le 12 goes),
          ),
        )
        | inr typed ↦
            let (events, (shown, good)) = events_total needle d h in
            let before_events : All (IsGood d) (goes ++ others) =
              All-append (IsGood d) goes others (views-IsGood needle d)
                (All-append (IsGood d) _ _ (services-IsGood needle d) (rules-IsGood needle d)) in
            (
              take 12 ((goes ++ others) ++ events),
              (
                rw (typed, shown) refl,
                (
                  All-take (IsGood d) 12 ((goes ++ others) ++ events)
                      (All-append (IsGood d) (goes ++ others) events before_events good),
                  length-take_le 12 ((goes ++ others) ++ events),
                ),
              ),
            )
      ]
