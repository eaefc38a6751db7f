-- ===== src/Files/Columns.antt =====
-- A compressed file as the columns of its messages, and that they are read back one after the other.
use mathlib.Core.Path.{subst}
use mathlib.Core.List.{map}
use clp_core.Base.{
  ℕ, suc, ◌+◌, ◌≤◌, ◌<◌, Bool, true, false, List, [], ◌∷◌, ◌++◌, append_assoc, append-nil, length,
  length-append, get_or, get_elem?, some, Outcome, ok, ◌≡◌, refl, sym, ap, ◌∙◌, arith,
}
use clp_core.Base.Int.{ℤ, pos}
use clp_core.Logtype.{LogtypeEntry}
use clp_core.Dictionary.{DictionaryReader}
use clp_core.Files.{
  Message, File, Call, num_vars_of, get_entry, read_vars, advance, current_message,
  get_next_message,
}
use clp_core.Files.Reading.{Holds, get_next_message-at_end, get_next_message-message}

-- The variables of messages, one message after the other.
abbrev pub vars_of : List Message → List ℤ
vars_of [] = []
vars_of (m ∷ ms) = m.vars ++ vars_of ms

-- The messages are numbered from `i` on.
abbrev pub Numbered : ℕ → List Message → Type 0
Numbered i [] = Unit
Numbered i (m ∷ ms) = (m.message_number ≡ i) × Numbered (suc i) ms

-- A dictionary's entries have a placeholder for each variable of each message.
abbrev pub Fits : List LogtypeEntry → List Message → Type 0
Fits es [] = Unit
Fits es (m ∷ ms) =
    ((e : LogtypeEntry) × (get_elem? es m.logtype_id ≡ some e)
      × (length e.var_positions ≡ length m.vars))
    × Fits es ms

-- A file whose columns are those of `done ++ todo`, and whose indices stand between the two.
pub record At (dict : DictionaryReader LogtypeEntry) (done todo : List Message) (f : File)
    : Type 0 where
  pub is_open : dict.reader_is_open ≡ true
  pub fits : Fits dict.reader_entries (done ++ todo)
  pub numbered : Numbered 0 (done ++ todo)
  pub messages : f.num_messages ≡ length (done ++ todo)
  pub variables_count : f.num_variables ≡ length (vars_of (done ++ todo))
  pub timestamps : f.timestamps ≡ map (λ m. m.timestamp) (done ++ todo)
  pub logtypes : f.logtypes ≡ map (λ m. m.logtype_id) (done ++ todo)
  pub variables : f.variables ≡ vars_of (done ++ todo)
  pub msgs_ix : f.msgs_ix ≡ length done
  pub variables_ix : f.variables_ix ≡ length (vars_of done)

vars_of-append : (ms ns : List Message) → vars_of (ms ++ ns) ≡ vars_of ms ++ vars_of ns
vars_of-append [] ns = refl
vars_of-append (m ∷ ms) ns =
    ap (λ l. m.vars ++ l) (vars_of-append ms ns)
    ∙ sym (append_assoc m.vars (vars_of ms) (vars_of ns))

get_or-map :
    {A : Type 0} (g : Message → A) (ms ns : List Message) (m : Message) (d : A)
    → get_or (map g (ms ++ m ∷ ns)) (length ms) d ≡ g m
get_or-map g [] ns m d = refl
get_or-map g (n ∷ ms) ns m d = get_or-map g ms ns m d

Numbered-at :
    (i : ℕ) (ms ns : List Message) (m : Message)
    → Numbered i (ms ++ m ∷ ns)
    → m.message_number ≡ i + length ms
Numbered-at i [] ns m h = let e : i + 0 ≡ i = omega arith in h.0 ∙ sym e
Numbered-at i (n ∷ ms) ns m h =
    let e : suc i + length ms ≡ i + suc (length ms) = omega arith in
    Numbered-at (suc i) ms ns m h.1 ∙ e

Fits-at :
    (es : List LogtypeEntry) (ms ns : List Message) (m : Message)
    → Fits es (ms ++ m ∷ ns)
    → (e : LogtypeEntry) × (get_elem? es m.logtype_id ≡ some e)
      × (length e.var_positions ≡ length m.vars)
Fits-at es [] ns m h = h.0
Fits-at es (n ∷ ms) ns m h = Fits-at es ms ns m h.1

get_or-append : (us vs : List ℤ) (v d : ℤ) → get_or (us ++ v ∷ vs) (length us) d ≡ v
get_or-append [] vs v d = refl
get_or-append (u ∷ us) vs v d = get_or-append us vs v d

read_vars-append : (us vs ws : List ℤ) → read_vars (us ++ (vs ++ ws)) (length us) (length vs) ≡ vs
unfolding read_vars
read_vars-append us [] ws = refl
read_vars-append us (v ∷ vs) ws =
    let rest = read_vars-append (us ++ v ∷ []) vs ws in
    let n : length (us ++ v ∷ []) ≡ suc (length us) = omega (arith, length-append us (v ∷ [])) in
    let shift : us ++ v ∷ [] ++ (vs ++ ws) ≡ us ++ (v ∷ (vs ++ ws)) =
      append_assoc us (v ∷ []) (vs ++ ws) in
    rw (get_or-append us (vs ++ ws) v (pos 0), (rw (shift, n) at rest)) refl

-- What the call does to a file between messages: at the end nothing; else it reads the next message and
-- stands behind it.
pub data ReadsNext (dict : DictionaryReader LogtypeEntry) (done : List Message) (f : File)
    (msg : Message) : List Message → Outcome (Call Bool) → Type 0 where
  at_end : ReadsNext dict done f msg [] (ok (record { result = false; file = f; msg = msg }))
  next :
      {f' : File} {m : Message} {todo : List Message}
      → At dict (done ++ m ∷ []) todo f'
      → ReadsNext dict done f msg (m ∷ todo) (ok (record { result = true; file = f'; msg = m }))

module _ (dict : DictionaryReader LogtypeEntry) (done todo : List Message) (m : Message) (f : File)
    (h : At dict done (m ∷ todo) f) where
  logtype_at : get_or f.logtypes f.msgs_ix 0 ≡ m.logtype_id
  logtype_at = rw (h.logtypes, h.msgs_ix) (get_or-map (λ m. m.logtype_id) done todo m 0)

  num_vars_at : num_vars_of dict (get_or f.logtypes f.msgs_ix 0) ≡ ok (length m.vars)
  unfolding num_vars_of get_entry
  num_vars_at =
      let (e, found, n) = Fits-at dict.reader_entries done todo m h.fits in
      rw (logtype_at, num_vars_of, get_entry, h.is_open, found, n) refl

  more_at : f.msgs_ix < f.num_messages
  more_at = let n = length-append done (m ∷ todo) in rw (h.msgs_ix, h.messages, n) (omega arith)

  vars_of-at : vars_of (done ++ m ∷ todo) ≡ vars_of done ++ (m.vars ++ vars_of todo)
  vars_of-at = vars_of-append done (m ∷ todo)

  room_at : f.variables_ix + length m.vars ≤ f.num_variables
  room_at =
      let n = length-append (vars_of done) (m.vars ++ vars_of todo) in
      let n' = length-append m.vars (vars_of todo) in
      rw (h.variables_ix, h.variables_count, vars_of-at, n, n') (omega arith)

  timestamp_at : get_or f.timestamps f.msgs_ix (pos 0) ≡ m.timestamp
  timestamp_at = rw (h.timestamps, h.msgs_ix) (get_or-map (λ m. m.timestamp) done todo m (pos 0))

  number_at : f.msgs_ix ≡ m.message_number
  number_at = let n = Numbered-at 0 done todo m h.numbered in omega (arith, n, h.msgs_ix)

  vars_at : read_vars f.variables f.variables_ix (length m.vars) ≡ m.vars
  vars_at =
      rw (h.variables, h.variables_ix, vars_of-at)
        (read_vars-append (vars_of done) m.vars (vars_of todo))

  current_message_at : current_message (length m.vars) f ≡ m
  unfolding current_message
  current_message_at = rw (logtype_at, timestamp_at, vars_at, number_at) refl

  advance-At : At dict (done ++ m ∷ []) todo (advance (length m.vars) f)
  unfolding advance
  advance-At =
      let shift = append_assoc done (m ∷ []) todo in
      record {
        is_open = h.is_open;
        fits = (rw (shift) h.fits);
        numbered = (rw (shift) h.numbered);
        messages = (rw (shift) h.messages);
        variables_count = (rw (shift) h.variables_count);
        timestamps = (rw (shift) h.timestamps);
        logtypes = (rw (shift) h.logtypes);
        variables = (rw (shift) h.variables);
        msgs_ix = (rw (h.msgs_ix, length-append done (m ∷ [])) refl);
        variables_ix =
            (rw
              (
                h.variables_ix,
                vars_of-append done (m ∷ []),
                append-nil m.vars,
                length-append (vars_of done) m.vars,
              )
              refl);
      }

past_of_none :
    (dict : DictionaryReader LogtypeEntry) (done : List Message) (f : File)
    → At dict done [] f
    → f.num_messages ≤ f.msgs_ix
past_of_none dict done f h = rw (h.messages, h.msgs_ix, append-nil done) (omega arith)

-- In a file made of the columns of messages, between those that are done and those to do, with a
-- dictionary that fits them: the call reads the first one to do, its number, logtype, timestamp and
-- variables, and stands behind it; when none is left it says so and changes nothing.
pub get_next_message-ReadsNext :
    (dict : DictionaryReader LogtypeEntry) (done todo : List Message) (f : File) (msg : Message)
    → At dict done todo f
    → ReadsNext dict done f msg todo (get_next_message dict f msg)
get_next_message-ReadsNext dict done [] f msg h =
    subst (ReadsNext dict done f msg [])
      (sym (get_next_message-at_end dict f msg (past_of_none dict done f h))) ReadsNext.at_end
get_next_message-ReadsNext dict done (m ∷ todo) f msg h =
    let run =
      get_next_message-message dict f msg (length m.vars) (more_at dict done todo m f h)
        (num_vars_at dict done todo m f h) (room_at dict done todo m f h) in
    rw (run, current_message_at dict done todo m f h)
      (ReadsNext.next (advance-At dict done todo m f h))

-- Such a file holds the messages to do.
At-Holds :
    (dict : DictionaryReader LogtypeEntry) (done todo : List Message) (f : File)
    → At dict done todo f
    → Holds dict f todo
At-Holds dict done [] f h = Holds.at_end (past_of_none dict done f h)
At-Holds dict done (m ∷ todo) f h =
    subst (λ x. Holds dict f (x ∷ todo)) (current_message_at dict done todo m f h)
      (Holds.message (length m.vars) (more_at dict done todo m f h)
        (num_vars_at dict done todo m f h) (room_at dict done todo m f h)
        (At-Holds dict (done ++ m ∷ []) todo (advance (length m.vars) f)
          (advance-At dict done todo m f h)))
