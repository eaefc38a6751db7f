-- ===== src/Files/Reading.antt =====
-- The messages that are left in a file, and that they are read one by one.
use mathlib.Core.Path.{subst, sym}
use clp_core.Base.{
  ℕ, ◌+◌, ◌≤◌, ◌<◌, Bool, true, false, leb, le→ltb_false, List, [], ◌∷◌, Outcome, ok, ◌≡◌, refl,
  arith,
}
use clp_core.Logtype.{LogtypeEntry}
use clp_core.Dictionary.{DictionaryReader}
use clp_core.Files.{
  Message, File, Call, num_vars_of, advance, current_logtype, current_message, get_next_message,
}

-- From the file's indices on it holds these messages: the dictionary has their logtypes, and the file has
-- the variables that they announce.
pub data Holds (dict : DictionaryReader LogtypeEntry) : File → List Message → Type 0 where
  at_end : {f : File} → f.num_messages ≤ f.msgs_ix → Holds dict f []
  message :
      {f : File} {ms : List Message} (num_vars : ℕ)
      → f.msgs_ix < f.num_messages
      → num_vars_of dict (current_logtype f) ≡ ok num_vars
      → f.variables_ix + num_vars ≤ f.num_variables
      → Holds dict (advance num_vars f) ms
      → Holds dict f (current_message num_vars f ∷ ms)

-- What `get_next_message` does to a file that holds messages.
pub data Reads (dict : DictionaryReader LogtypeEntry) (msg : Message)
    : List Message → Outcome (Call Bool) → Type 0 where
  none_left :
      {f : File}
      → Holds dict f []
      → Reads dict msg [] (ok (record { result = false; file = f; msg = msg }))
  reads :
      {f : File} {m : Message} {ms : List Message}
      → Holds dict f ms
      → Reads dict msg (m ∷ ms) (ok (record { result = true; file = f; msg = m }))

pub get_next_message-at_end :
    (dict : DictionaryReader LogtypeEntry) (f : File) (msg : Message)
    → f.num_messages ≤ f.msgs_ix
    → get_next_message dict f msg ≡ ok (record { result = false; file = f; msg = msg })
unfolding get_next_message
get_next_message-at_end dict f msg past = ground arith

pub get_next_message-message :
    (dict : DictionaryReader LogtypeEntry) (f : File) (msg : Message) (num_vars : ℕ)
    → f.msgs_ix < f.num_messages
    → num_vars_of dict (current_logtype f) ≡ ok num_vars
    → f.variables_ix + num_vars ≤ f.num_variables
    → get_next_message dict f msg
      ≡ ok (record { result = true; file = advance num_vars f; msg = current_message num_vars f })
unfolding get_next_message
get_next_message-message dict f msg num_vars more known room =
    let here : leb f.num_messages f.msgs_ix ≡ false = ground arith in
    rw
      (get_next_message, here, known, le→ltb_false f.num_variables (f.variables_ix + num_vars) room)
      refl

-- A file that holds messages: the first is read and the file then holds the others, or none is left and
-- nothing changes.
pub get_next_message-Reads :
    (dict : DictionaryReader LogtypeEntry) (f : File) (msg : Message) (ms : List Message)
    → Holds dict f ms
    → Reads dict msg ms (get_next_message dict f msg)
get_next_message-Reads dict f msg _ (Holds.at_end past) =
    subst (Reads dict msg []) (sym (get_next_message-at_end dict f msg past))
      (Reads.none_left (Holds.at_end past))
get_next_message-Reads dict f msg _ (Holds.message num_vars more known room others) =
    subst (Reads dict msg _) (sym (get_next_message-message dict f msg num_vars more known room))
      (Reads.reads others)
