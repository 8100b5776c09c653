-- ===== src/Api/Stream/Chunks.antt =====
-- The events of a stream do not depend on how the stream is cut into chunks.
use karna.Common.{
  ℕ, ◌≡◌, refl, sym, ap, ◌∙◌, subst, Bool, true, false, inl, inr, Option, List, [], ◌∷◌, ◌++◌,
  append_assoc, append-nil, Bool-cases, ◌==◌,
}
use karna.Text.{Text, split_on, push_first}
use karna.Value.{Value}
use karna.Api.Stream.{
  last_line, lines_before, Delivery, delivered_nothing, after, deliver_line, deliver, stream_ndjson,
}

abbrev pub concat : List Text → Text
concat [] = []
concat (c ∷ cs) = c ++ concat cs

abbrev IsSplit : List Text → Type 0
IsSplit [] = ⊥
IsSplit (l ∷ ls) = Unit

push_first-IsSplit : (c : ℕ) (ls : List Text) → IsSplit (push_first c ls)
push_first-IsSplit c [] = tt
push_first-IsSplit c (l ∷ ls) = tt

split_on-IsSplit : (d : ℕ) (s : Text) → IsSplit (split_on d s)
unfolding split_on
split_on-IsSplit d [] = tt
split_on-IsSplit d (c ∷ s) = elim (Bool-cases (c == d)) [
  | inl sep ↦ rw sep tt
  | inr other ↦ rw other (push_first-IsSplit c (split_on d s))
]

-- A split text is split again where it was cut.
abbrev CutsAt : ℕ → Text → Text → Type 0
CutsAt d s t =
    split_on d (s ++ t) ≡ lines_before (split_on d s) ++ split_on d (last_line (split_on d s) ++ t)

push_first-cut :
    (c d : ℕ) (ls : List Text) (t : Text)
    → IsSplit ls
    → (c == d) ≡ false
    → push_first c (lines_before ls ++ split_on d (last_line ls ++ t))
      ≡ lines_before (push_first c ls) ++ split_on d (last_line (push_first c ls) ++ t)
unfolding last_line lines_before split_on
push_first-cut c d [] t h e = absurd h
push_first-cut c d (l ∷ []) t h e = rw e
push_first-cut c d (l ∷ m ∷ ls) t h e = refl

cons_cut :
    (ls : List Text) (d : ℕ) (t : Text)
    → IsSplit ls
    → [] ∷ (lines_before ls ++ split_on d (last_line ls ++ t))
      ≡ lines_before ([] ∷ ls) ++ split_on d (last_line ([] ∷ ls) ++ t)
unfolding last_line lines_before
cons_cut [] d t h = absurd h
cons_cut (l ∷ ls) d t h = refl

split_on-append : (d : ℕ) (s t : Text) → CutsAt d s t
unfolding split_on
split_on-append d [] t = unfold last_line lines_before in refl
split_on-append d (c ∷ s) t = elim (Bool-cases (c == d)) [
  | inl sep ↦ rw sep (
      ap (λ ls. [] ∷ ls) (split_on-append d s t)
      ∙ cons_cut (split_on d s) d t (split_on-IsSplit d s))
  | inr other ↦ rw other (
      ap (push_first c) (split_on-append d s t)
      ∙ push_first-cut c d (split_on d s) t (split_on-IsSplit d s) other)
]

-- A text without a line feed.
abbrev pub IsLine : Text → Type 0
IsLine s = split_on 10 s ≡ s ∷ []

last_push_first :
    (c : ℕ) (ls : List Text)
    → IsSplit ls
    → (c == 10) ≡ false
    → IsLine (last_line ls)
    → IsLine (last_line (push_first c ls))
unfolding last_line split_on
last_push_first c [] h e k = absurd h
last_push_first c (l ∷ []) h e k = rw e (ap (push_first c) k)
last_push_first c (l ∷ m ∷ ls) h e k = k

last_cons : (ls : List Text) → IsSplit ls → last_line ([] ∷ ls) ≡ last_line ls
unfolding last_line
last_cons [] h = absurd h
last_cons (l ∷ ls) h = refl

last_line-IsLine : (s : Text) → IsLine (last_line (split_on 10 s))
last_line-IsLine [] = unfold split_on last_line in refl
last_line-IsLine (c ∷ s) = elim (Bool-cases (c == 10)) [
  | inl sep ↦
      let e : split_on 10 (c ∷ s) ≡ [] ∷ split_on 10 s = unfold split_on in rw sep in
      subst IsLine (sym (ap last_line e ∙ last_cons (split_on 10 s) (split_on-IsSplit 10 s)))
        (last_line-IsLine s)
  | inr other ↦
      let e : split_on 10 (c ∷ s) ≡ push_first c (split_on 10 s) = unfold split_on in rw other in
      subst IsLine (sym (ap last_line e))
        (last_push_first c (split_on 10 s) (split_on-IsSplit 10 s) other (last_line-IsLine s))
]

abbrev delivery : List Value → Bool → Delivery
delivery xs f = record { events = xs; failed = f }

after_flags :
    (xs : List Value) (f : Bool) (ys : List Value) (g : Bool) (c : Delivery)
    → after (after (delivery xs f) (delivery ys g)) c
      ≡ after (delivery xs f) (after (delivery ys g) c)
after_flags xs true ys g c = refl
after_flags xs false ys true c = refl
after_flags xs false ys false c = ap (λ zs. delivery zs c.failed) (append_assoc xs ys c.events)

after_assoc : (a b c : Delivery) → after (after a b) c ≡ after a (after b c)
after_assoc a b c = after_flags a.events a.failed b.events b.failed c

after_nothing_at :
    (xs : List Value) (f : Bool) → after (delivery xs f) delivered_nothing ≡ delivery xs f
after_nothing_at xs true = refl
after_nothing_at xs false = ap (λ zs. delivery zs false) (append-nil xs)

after_nothing : (d : Delivery) → after d delivered_nothing ≡ d
after_nothing d = after_nothing_at d.events d.failed

module _ (parse : Text → Option Value) where
  deliver-append :
      (xs ys : List Text) → deliver parse (xs ++ ys) ≡ after (deliver parse xs) (deliver parse ys)
  unfolding deliver
  deliver-append [] ys = refl
  deliver-append (x ∷ xs) ys =
      ap (after (deliver_line parse x)) (deliver-append xs ys)
      ∙ sym (after_assoc (deliver_line parse x) (deliver parse xs) (deliver parse ys))

  -- From a buffer that is one line, the loop over the chunks ends with what a delivery of all lines of the
  -- buffer and the joined chunks gives.
  stream_ndjson-deliver :
      (buffer : Text) (chunks : List Text)
      → IsLine buffer
      → stream_ndjson parse buffer chunks ≡ deliver parse (split_on 10 (buffer ++ concat chunks))
  unfolding stream_ndjson
  stream_ndjson-deliver buffer [] h = sym (
      ap (λ t. deliver parse (split_on 10 t)) (append-nil buffer)
      ∙ ap (deliver parse) h
      ∙ unfold deliver in after_nothing (deliver_line parse buffer))
  stream_ndjson-deliver buffer (chunk ∷ chunks) h =
      let s = buffer ++ chunk in
      let rest = concat chunks in
      ap (after (deliver parse (lines_before (split_on 10 s))))
        (stream_ndjson-deliver (last_line (split_on 10 s)) chunks (last_line-IsLine s))
      ∙ sym (
          deliver-append (lines_before (split_on 10 s))
            (split_on 10 (last_line (split_on 10 s) ++ rest)))
      ∙ ap (deliver parse) (sym (split_on-append 10 s rest))
      ∙ ap (λ t. deliver parse (split_on 10 t)) (append_assoc buffer chunk rest)

  -- However a stream is cut into chunks, the loop of `streamNdjson` from an empty buffer hands over exactly
  -- the events that the lines of the whole text give in order, each blank line passed over, and it fails
  -- exactly where a line of the whole text fails to parse.
  pub stream_ndjson-concat :
      (chunks : List Text)
      → stream_ndjson parse [] chunks ≡ deliver parse (split_on 10 (concat chunks))
  stream_ndjson-concat chunks = stream_ndjson-deliver [] chunks (unfold split_on in refl)
