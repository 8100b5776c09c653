-- ===== src/Overrides/Save/Unconfirmed.antt =====
-- The dialog of the override form comes after the request.
use karna.Common.{
  ◌≡◌, refl, inl, inr, Bool, true, false, ◌&&◌, Option, none, some, List, [], ◌∷◌, Bool-cases,
}
use karna.Text.{Text, is_empty}
use karna.Mutation.{Effect, asked, requested, refreshed, closed, Reply, run, requests}
use karna.Overrides.Save.{Modal, Sent, Request, entry_to_send, request_of, question, send, save}

abbrev pub is_absent : Option Text → Bool
is_absent none = true
is_absent (some message) = false

module _ (number : Text → Text) (parses : Text → Bool) where
  -- A save asks after its request, and counts as done if the user confirms and the call does not fail.
  record SendsFirst (m : Modal) (entry : Sent) (reply : Reply) : Type 0 where
    once :
        requests (send number parses m reply (some entry)).effects
        ≡ request_of number parses m entry ∷ []
    first :
        (es : List (Effect Request)) × ((send number parses m reply (some entry)).effects
          ≡ requested (request_of number parses m entry) ∷ asked (question number parses m) ∷ es)
    done :
        (send number parses m reply (some entry)).succeeded
        ≡ (reply.confirms && is_absent reply.failure)

  question_asks : (m : Modal) → is_empty (question number parses m) ≡ false
  question_asks m = elim (Bool-cases m.is_edit) [
    | inl edits ↦ rw edits refl
    | inr adds ↦ rw adds refl
  ]

  send-SendsFirst :
      (m : Modal) (entry : Sent) (confirms : Bool) (failure : Option Text)
      → SendsFirst m entry (record { confirms = confirms; failure = failure })
  unfolding run
  send-SendsFirst m entry false failure = record {
    once = rw (question_asks m) refl;
    first = ([], rw (question_asks m) refl);
    done = rw (question_asks m) refl;
  }
  send-SendsFirst m entry true none = record {
    once = rw (question_asks m) refl;
    first = (refreshed ∷ closed ∷ [], rw (question_asks m) refl);
    done = rw (question_asks m) refl;
  }
  send-SendsFirst m entry true (some message) = record {
    once = rw (question_asks m) refl;
    first = ([], rw (question_asks m) refl);
    done = rw (question_asks m) refl;
  }

  -- Where there is an entry to send, the form makes one request for it, whatever the user answers in the dialog
  -- and whether the call fails or not, and it makes the request before it asks: a refused save sends what a
  -- confirmed one does. The save counts as done exactly if the user confirms and the call does not fail.
  pub save-sends_first :
      (m : Modal) (entry : Sent) (reply : Reply)
      → entry_to_send number parses m ≡ some entry
      → (requests (save number parses m reply).effects ≡ request_of number parses m entry ∷ [])
        × (((es : List (Effect Request)) × ((save number parses m reply).effects
                ≡ requested (request_of number parses m entry)
                  ∷ asked (question number parses m)
                  ∷ es))
            × ((save number parses m reply).succeeded
                ≡ (reply.confirms && is_absent reply.failure)))
  unfolding save
  save-sends_first m entry reply h =
      let r = send-SendsFirst m entry reply.confirms reply.failure in
      rw h (r.once, (r.first, r.done))
