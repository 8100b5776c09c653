-- ===== src/Mutation.antt =====
-- dashboard/web/src/data/hooks.js and components/ConfirmProvider.jsx: how a view runs a write call. The
-- answer of the dialog and the outcome of the call are given, and what happens is a list of effects.
use karna.Common.{Bool, true, false, Option, none, some, List, [], ◌∷◌, ◌++◌, if◌then◌else◌}
use karna.Text.{Text, is_empty}

-- What a view does to the outside, for the requests that it can make.
pub data Effect (R : Type 0) : Type 0 where
  asked : Text → Effect R
  requested : R → Effect R
  refreshed : Effect R
  closed : Effect R

-- Whether the user confirms, and the error of the call if it fails.
pub record Reply : Type 0 where
  pub confirms : Bool
  pub failure : Option Text

-- The state of `useMutation`.
pub record Mutation : Type 0 where
  pub pending : Bool
  pub error : Option Text

pub record Run (R : Type 0) : Type 0 where
  pub effects : List (Effect R)
  pub after : Mutation
  pub succeeded : Bool

module _ {R : Type 0} where
  -- `run` behind the dialog: the requests are those that `fn` makes.
  abbrev pub run_outcome : List (Effect R) → Option Text → Run R
  run_outcome fn none = record {
    effects = fn ++ (refreshed ∷ []);
    after = record { pending = false; error = none };
    succeeded = true;
  }
  run_outcome fn (some message) = record {
    effects = fn;
    after = record { pending = false; error = some message };
    succeeded = false;
  }

  -- No message is the empty text. A dialog that is not confirmed ends the run.
  unfoldable pub run : List (Effect R) → Text → Reply → Mutation → Run R
  run fn message reply m =
      let rest = run_outcome fn reply.failure in
      if is_empty message
      then rest
      else if reply.confirms
      then record rest { effects = asked message ∷ rest.effects }
      else record { effects = asked message ∷ []; after = m; succeeded = false }

  -- `if (ok) onClose();`
  abbrev pub then_close : Run R → Run R
  then_close r = if r.succeeded then record r { effects = r.effects ++ (closed ∷ []) } else r

  -- The requests among some effects.
  abbrev pub requests : List (Effect R) → List R
  requests [] = []
  requests (asked message ∷ es) = requests es
  requests (requested r ∷ es) = r ∷ requests es
  requests (refreshed ∷ es) = requests es
  requests (closed ∷ es) = requests es
