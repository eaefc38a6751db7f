-- ===== src/Files.antt =====
-- The messages of a compressed file: src/streaming_archive/reader/File.cpp and Message.cpp, as far as
-- they go from message to message, and `get_entry` of src/DictionaryReader.hpp. The columns that a file
-- maps into memory or takes from a segment are lists.
pub mod Reading
pub mod Columns
pub mod Searching
pub mod Decompressing
pub mod Examples
use clp_core.Base.{
  ℕ, zero, suc, ◌+◌, ◌-◌, ◌≤◌, ◌<◌, Bool, true, false, not, ◌&&◌, leb, ltb, if◌then◌else◌, List, [],
  ◌∷◌, length, get_or, get_elem?, Option, none, some, Outcome, ok, throws, ErrorCode, ◌>>=◌, ◌>>◌,
  throw_if,
}
use clp_core.Base.Int.{ℤ, pos, leb_ℤ}
use clp_core.Logtype.{LogtypeEntry}
use clp_core.Dictionary.{DictionaryReader}
use clp_core.Query.{
  SubQuery, Query, matches_logtype, matches_vars, timestamp_is_in_search_time_range,
}

pub record Message : Type 0 where
  pub message_number : ℕ
  pub logtype_id : ℕ
  pub timestamp : ℤ
  pub vars : List ℤ

pub record File : Type 0 where
  pub num_messages : ℕ
  pub num_variables : ℕ
  pub timestamps : List ℤ
  pub logtypes : List ℕ
  pub variables : List ℤ
  pub msgs_ix : ℕ
  pub variables_ix : ℕ

-- The result of a call, and the file and the message behind it.
pub record Call (R : Type 0) : Type 0 where
  pub result : R
  pub file : File
  pub msg : Message

unfoldable pub get_entry : {E : Type 0} → DictionaryReader E → ℕ → Outcome E
get_entry r id = do
  throw_if (not r.reader_is_open) ErrorCode.not_init
  elim (get_elem? r.reader_entries id) [ none ↦ throws ErrorCode.bad_param | some e ↦ ok e ]

-- `get_entry (logtype_id).get_num_vars ()`
unfoldable pub num_vars_of : DictionaryReader LogtypeEntry → ℕ → Outcome ℕ
unfolding get_entry
num_vars_of r id = get_entry r id >>= λ e. ok (length e.var_positions)

-- The loop that adds the variables from `ix` on to a message.
unfoldable pub read_vars : List ℤ → ℕ → ℕ → List ℤ
read_vars variables ix zero = []
read_vars variables ix (suc n) = get_or variables ix (pos 0) ∷ read_vars variables (suc ix) n

unfoldable pub reset_indices : File → File
reset_indices f = record f { msgs_ix = 0; variables_ix = 0 }

-- `++m_msgs_ix; m_variables_ix += num_vars;`
unfoldable pub advance : ℕ → File → File
advance num_vars f = record f { msgs_ix = f.msgs_ix + 1; variables_ix = f.variables_ix + num_vars }

abbrev pub current_logtype : File → ℕ
current_logtype f = get_or f.logtypes f.msgs_ix 0

abbrev pub current_timestamp : File → ℤ
current_timestamp f = get_or f.timestamps f.msgs_ix (pos 0)

-- The message at the indices, with its properties set.
unfoldable pub current_message : ℕ → File → Message
unfolding read_vars
current_message num_vars f = record {
  message_number = f.msgs_ix;
  logtype_id = current_logtype f;
  timestamp = current_timestamp f;
  vars = read_vars f.variables f.variables_ix num_vars;
}

abbrev pub out_of_sync : ℕ → File → Bool
out_of_sync num_vars f = ltb f.num_variables (f.variables_ix + num_vars)

-- How the loop over the relevant subqueries ends at a message; `unmatched` leaves the message's
-- variables as the last subquery read them.
pub data Inner : Type 0 where
  stopped : Message → Inner
  matched : ℕ → Inner
  unmatched : Message → Inner

unfoldable pub relevant_loop : Query → ℕ → File → List ℕ → Message → Inner
unfolding read_vars matches_logtype matches_vars timestamp_is_in_search_time_range
relevant_loop q num_vars f [] msg = Inner.unmatched msg
relevant_loop q num_vars f (i ∷ is) msg = elim (get_elem? q.sub_queries i) [
  | none ↦ relevant_loop q num_vars f is msg
  | some s ↦
      elim (matches_logtype s (current_logtype f)
        && timestamp_is_in_search_time_range q (current_timestamp f)) [
          | false ↦ relevant_loop q num_vars f is msg
          | true ↦ elim (out_of_sync num_vars f) [
            | true ↦ Inner.stopped msg
            | false ↦ elim (matches_vars s (read_vars f.variables f.variables_ix num_vars)) [
              | true ↦ Inner.matched i
              | false ↦
                  relevant_loop q num_vars f is
                    (record msg { vars = read_vars f.variables f.variables_ix num_vars })
            ]
          ]
        ]
]

module _ (dict : DictionaryReader LogtypeEntry) where
  unfoldable pub get_next_message : File → Message → Outcome (Call Bool)
  unfolding num_vars_of current_message advance
  get_next_message f msg =
      if leb f.num_messages f.msgs_ix
      then ok (record { result = false; file = f; msg = msg })
      else (num_vars_of dict (current_logtype f) >>= λ num_vars. ok (
          if out_of_sync num_vars f
          then record { result = false; file = f; msg = current_message 0 f }
          else record {
            result = true;
            file = advance num_vars f;
            msg = current_message num_vars f;
          }))

  -- The loop, on the messages left.
  unfoldable pub time_range_loop : ℕ → ℤ → ℤ → File → Message → Outcome (Call Bool)
  unfolding num_vars_of current_message advance
  time_range_loop zero begin_ts end_ts f msg = ok (record { result = false; file = f; msg = msg })
  time_range_loop (suc n) begin_ts end_ts f msg =
      num_vars_of dict (current_logtype f) >>= λ num_vars.
      elim (leb_ℤ begin_ts (current_timestamp f) && leb_ℤ (current_timestamp f) end_ts) [
        | false ↦ time_range_loop n begin_ts end_ts (advance num_vars f) msg
        | true ↦ ok (
            if out_of_sync num_vars f
            then record { result = false; file = f; msg = msg }
            else record {
              result = true;
              file = advance num_vars f;
              msg = current_message num_vars f;
            })
      ]

  unfoldable pub find_message_in_time_range : ℤ → ℤ → File → Message → Outcome (Call Bool)
  unfolding time_range_loop
  find_message_in_time_range begin_ts end_ts f msg =
      time_range_loop (f.num_messages - f.msgs_ix) begin_ts end_ts f msg

  unfoldable pub query_loop : ℕ → Query → File → Message → Outcome (Call (Option ℕ))
  unfolding num_vars_of current_message advance relevant_loop
  query_loop zero q f msg = ok (record { result = none; file = f; msg = msg })
  query_loop (suc n) q f msg = num_vars_of dict (current_logtype f) >>= λ num_vars.
      elim (relevant_loop q num_vars f q.relevant_sub_queries msg) [
        | stopped msg' ↦ ok (record { result = none; file = f; msg = msg' })
        | matched i ↦ ok (record {
          result = some i;
          file = advance num_vars f;
          msg = current_message num_vars f;
        })
        | unmatched msg' ↦ query_loop n q (advance num_vars f) msg'
      ]

  -- The result is the index of the subquery; the source returns a pointer to it.
  unfoldable pub find_message_matching_query : Query → File → Message → Outcome (Call (Option ℕ))
  unfolding query_loop
  find_message_matching_query q f msg = query_loop (f.num_messages - f.msgs_ix) q f msg
