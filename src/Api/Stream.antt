-- ===== src/Api/Stream.antt =====
-- api.js, lines 70 to 83 (`streamNdjson`): the lines of a stream that comes in chunks.
-- A chunk is the text that the decoder gives for it; the last one is what its flush gives.
pub mod Chunks
use karna.Common.{Bool, true, false, not, Option, none, some, List, [], ◌∷◌, ◌++◌, if◌then◌else◌}
use karna.Text.{Text, is_empty, is_space, strip, trim, split_on}
use karna.Value.{Value}

-- `lines.pop() || ""`, and the lines before it
unfoldable pub last_line : List Text → Text
last_line [] = []
last_line (l ∷ []) = l
last_line (l ∷ m ∷ ls) = last_line (m ∷ ls)

unfoldable pub lines_before : List Text → List Text
lines_before [] = []
lines_before (l ∷ []) = []
lines_before (l ∷ m ∷ ls) = l ∷ lines_before (m ∷ ls)

-- The events that were handed to `onEvent`, and whether `JSON.parse` threw, which ends the stream.
pub record Delivery : Type 0 where
  pub events : List Value
  pub failed : Bool

abbrev pub delivered_nothing : Delivery
delivered_nothing = record { events = []; failed = false }

abbrev pub then_event : Value → Delivery → Delivery
then_event v d = record d { events = v ∷ d.events }

-- What is done after some lines, unless one of them threw.
abbrev pub after : Delivery → Delivery → Delivery
after d e = if d.failed then d else record { events = d.events ++ e.events; failed = e.failed }

-- `JSON.parse` is a parameter, with `none` for a text that it refuses.
module _ (parse : Text → Option Value) where
  -- One line: a blank one is passed over.
  unfoldable pub deliver_line : Text → Delivery
  unfolding strip is_space
  deliver_line line = if is_empty (trim line) then delivered_nothing else elim (parse line) [
    | none ↦ record { events = []; failed = true }
    | some v ↦ record { events = v ∷ []; failed = false }
  ]

  unfoldable pub deliver : List Text → Delivery
  unfolding deliver_line
  deliver [] = delivered_nothing
  deliver (line ∷ lines) = after (deliver_line line) (deliver lines)

  -- The loop over the chunks, and the rest of the buffer behind it.
  unfoldable pub stream_ndjson : Text → List Text → Delivery
  unfolding deliver split_on last_line lines_before
  stream_ndjson buffer [] = deliver_line buffer
  stream_ndjson buffer (chunk ∷ chunks) =
      let lines = split_on 10 (buffer ++ chunk) in
      after (deliver (lines_before lines)) (stream_ndjson (last_line lines) chunks)
