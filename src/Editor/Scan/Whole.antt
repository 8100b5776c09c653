-- ===== src/Editor/Scan/Whole.antt =====
-- A whole JSON value in front of the cursor.
use karna.Common.{
  ℕ, ◌≡◌, refl, ap, ◌∙◌, ◌+◌, Bool, true, false, ◌&&◌, Option, some, List, [], ◌∷◌, ◌++◌, map,
  every, length, and-true,
}
use karna.Text.{Text}
use karna.Editor.Scan.{
  Frame, Scan, scan_char, scan_from, on_top, popped, opened, at_colon, at_comma,
}
use karna.Editor.Scan.Docs.{
  Piece, Doc, scalar, string, array, object, spaced, Docs, no_docs, last, item, Members, no_members,
  last_member, member, print_string, print, print_docs, print_members, is_bare, is_piece, is_well,
  is_well_docs, is_well_members,
}
use karna.Editor.Scan.Steps.{
  out, bare, takes_value, takes_key, in_member, in_array, scan-gap, scan-string, after_string, Ends,
  Same, Ready, in_member-IsSteady, in_array-IsSteady, carry_over, in_array-value, in_member-value,
  comma_array, comma_member, colon_key, popped-on_top, string_value, string_key, then_scan,
}

module _ (text : Text) where
  after_gap :
      (P : List Frame → Type 0) (i : ℕ) (gap : Text) (st : List Frame) (o : Option ℕ)
      → every is_bare gap ≡ true
      → P st
      → Ends P (scan_from text i gap (out st o))
  after_gap P i gap st o h p = record {
    after = st;
    begun = o;
    is = scan-gap text i gap st o h;
    holds = p;
  }

  -- A bracket closes the innermost container.
  after_close :
      (i : ℕ) (k : List Frame → Bool) (gap : Text) (bracket : ℕ) (outer st : List Frame)
      (o : Option ℕ)
      → ((j : ℕ) (st : List Frame) (o : Option ℕ)
          → scan_char text j bracket (out st o) ≡ out (popped st) o)
      → every is_bare gap ≡ true
      → Ready k outer st
      → Ends (Same outer) (scan_from text i (gap ++ (bracket ∷ [])) (out st o))
  unfolding scan_from
  after_close i k gap bracket outer st o closes h (test, below) =
      then_scan text i gap (bracket ∷ []) (out st o)
        (after_gap (Ready k outer) i gap st o h (test, below))
        (λ st2 o2 (test2, below2). record {
          after = popped st2;
          begun = o2;
          is = closes (i + length gap) st2 o2;
          holds = below2;
        })

  after_key :
      (i : ℕ) (ps : List Piece) (outer st : List Frame) (o : Option ℕ)
      → every is_piece ps ≡ true
      → Ready takes_key outer st
      → Ends (Ready takes_key outer) (scan_from text i (print_string ps) (out st o))
  after_key i ps outer st o h (test, below) = record {
    after = after_string text i ps st;
    begun = some i;
    is = scan-string text i ps st o h;
    holds = (
      string_key text i ps st test,
      ap (map bare) (
            popped-on_top _ (on_top (λ top. record top { str_start = some i }) st)
            ∙ popped-on_top (λ top. record top { str_start = some i }) st)
          ∙ below,
    );
  }

  weaken :
      {P Q : List Frame → Type 0} (s : Scan)
      → ((st : List Frame) → P st → Q st)
      → Ends P s
      → Ends Q s
  weaken {P} {Q} s f r = record {
    after = r.after;
    begun = r.begun;
    is = r.is;
    holds = f r.after r.holds;
  }

  -- What follows a key and its colon.
  after_colon :
      (Q : List Frame → Type 0) (gap : Text) (k : List Piece) (v : Text) (i : ℕ)
      (outer st : List Frame) (o : Option ℕ)
      → every is_bare gap ≡ true
      → every is_piece k ≡ true
      → Ready takes_key outer st
      → ((j : ℕ) (st : List Frame) (o : Option ℕ)
          → Ready in_member outer st
          → Ends Q (scan_from text j v (out st o)))
      → Ends Q (scan_from text i (gap ++ (print_string k ++ (58 ∷ v))) (out st o))
  unfolding scan_from scan_char
  after_colon Q gap k v i outer st o hg hk r f =
      then_scan text i gap (print_string k ++ (58 ∷ v)) (out st o)
        (after_gap (Ready takes_key outer) i gap st o hg r)
        (λ st2 o2 r2.
          then_scan text (i + length gap) (print_string k) (58 ∷ v) (out st2 o2)
            (after_key (i + length gap) k outer st2 o2 hk r2)
            (λ st3 o3 r3.
              f (i + length gap + length (print_string k) + 1) (on_top at_colon st3) o3
                (colon_key st3 r3.0, ap (map bare) (popped-on_top at_colon st3) ∙ r3.1)))

  abbrev is_any : List Frame → Bool
  is_any st = true

  mutual
    unfolding print is_well scan_from scan_char

    scan-print :
        (d : Doc) (i : ℕ) (st : List Frame) (o : Option ℕ)
        → is_well d ≡ true
        → takes_value st ≡ true
        → Ends (Same st) (scan_from text i (print d) (out st o))
    scan-print (scalar t) i st o h v = after_gap (Same st) i t st o h refl
    scan-print (string ps) i st o h v = record {
      after = after_string text i ps st;
      begun = some i;
      is = scan-string text i ps st o h;
      holds = string_value text i ps st v;
    }
    scan-print (array ds gap) i st o h v =
        let (hd, hg) = and-true (is_well_docs ds) (every is_bare gap) h in
        then_scan text (i + 1) (print_docs ds) (gap ++ (93 ∷ [])) (out (opened false st ∷ st) o)
          (scan-docs ds (i + 1) st (opened false st ∷ st) o hd (refl, refl))
          (λ st2 o2 r.
            after_close (i + 1 + length (print_docs ds)) in_array gap 93 st st2 o2 (λ j s p. refl)
              hg r)
    scan-print (object ms gap) i st o h v =
        let (hm, hg) = and-true (is_well_members ms) (every is_bare gap) h in
        then_scan text (i + 1) (print_members ms) (gap ++ (125 ∷ [])) (out (opened true st ∷ st) o)
          (scan-members ms (i + 1) st (opened true st ∷ st) o hm (refl, refl))
          (λ st2 o2 r.
            after_close (i + 1 + length (print_members ms)) is_any gap 125 st st2 o2 (λ j s p. refl)
              hg r)
    scan-print (spaced gap d) i st o h v =
        let (hg, hd) = and-true (every is_bare gap) (is_well d) h in
        then_scan text i gap (print d) (out st o)
          (after_gap (λ s. (takes_value s ≡ true) × Same st s) i gap st o hg (v, refl))
          (λ st2 o2 (v2, same).
            weaken (scan_from text (i + length gap) (print d) (out st2 o2)) (λ st3 s. s ∙ same)
              (scan-print d (i + length gap) st2 o2 hd v2))

    scan-docs :
        (ds : Docs) (i : ℕ) (outer st : List Frame) (o : Option ℕ)
        → is_well_docs ds ≡ true
        → Ready in_array outer st
        → Ends (Ready in_array outer) (scan_from text i (print_docs ds) (out st o))
    scan-docs no_docs i outer st o h r = record { after = st; begun = o; is = refl; holds = r }
    scan-docs (last d) i outer st o h r =
        weaken (scan_from text i (print d) (out st o))
          (λ st2 same. carry_over in_array outer st st2 in_array-IsSteady same r)
          (scan-print d i st o h (in_array-value st r.0))
    scan-docs (item d ds) i outer st o h r =
        let (hd, hs) = and-true (is_well d) (is_well_docs ds) h in
        then_scan text i (print d) (44 ∷ print_docs ds) (out st o)
          (scan-print d i st o hd (in_array-value st r.0))
          (λ st2 o2 same.
            let (test, below) = carry_over in_array outer st st2 in_array-IsSteady same r in
            scan-docs ds (i + length (print d) + 1) outer (on_top at_comma st2) o2 hs
              (comma_array st2 test, ap (map bare) (popped-on_top at_comma st2) ∙ below))

    scan-members :
        (ms : Members) (i : ℕ) (outer st : List Frame) (o : Option ℕ)
        → is_well_members ms ≡ true
        → Ready takes_key outer st
        → Ends (Ready is_any outer) (scan_from text i (print_members ms) (out st o))
    scan-members no_members i outer st o h r = record {
      after = st;
      begun = o;
      is = refl;
      holds = (refl, r.1);
    }
    scan-members (last_member gap k d) i outer st o h r =
        let (hg, hkd) = and-true (every is_bare gap) (every is_piece k && is_well d) h in
        let (hk, hd) = and-true (every is_piece k) (is_well d) hkd in
        after_colon (Ready is_any outer) gap k (print d) i outer st o hg hk r (λ j st2 o2 r2.
          weaken (scan_from text j (print d) (out st2 o2))
            (λ st3 same. (refl, (carry_over in_member outer st2 st3 in_member-IsSteady same r2).1))
            (scan-print d j st2 o2 hd (in_member-value st2 r2.0)))
    scan-members (member gap k d ms) i outer st o h r =
        let (hg, hkd) =
          and-true (every is_bare gap) (every is_piece k && (is_well d && is_well_members ms)) h in
        let (hk, hdm) = and-true (every is_piece k) (is_well d && is_well_members ms) hkd in
        let (hd, hm) = and-true (is_well d) (is_well_members ms) hdm in
        after_colon (Ready is_any outer) gap k (print d ++ (44 ∷ print_members ms)) i outer st o hg
          hk r
          (λ j st2 o2 r2.
            then_scan text j (print d) (44 ∷ print_members ms) (out st2 o2)
              (scan-print d j st2 o2 hd (in_member-value st2 r2.0))
              (λ st3 o3 same.
                let (test, below) = carry_over in_member outer st2 st3 in_member-IsSteady same r2 in
                scan-members ms (j + length (print d) + 1) outer (on_top at_comma st3) o3 hm
                  (comma_member st3 test, ap (map bare) (popped-on_top at_comma st3) ∙ below)))

  -- A whole JSON value that stands where a value may follow, with blanks, escapes and nested values of any kind, is
  -- passed over: the scan is outside of a string again, and the same containers are open, each with the same role
  -- and key, and with or without a value to come as before.
  pub scan_from-print :
      (d : Doc) (i : ℕ) (st : List Frame) (o : Option ℕ)
      → is_well d ≡ true
      → takes_value st ≡ true
      → Ends (Same st) (scan_from text i (print d) (out st o))
  scan_from-print d i st o h v = scan-print d i st o h v
