-- ===== src/Codec/Archived.antt =====
-- A message through the files of an archive: encoded, its dictionary written, read, and decoded.
use clp_core.Base.{
  ◌≤◌, ◌<◌, ◌≡◌, ap, ◌∙◌, Bytes, [], ◌++◌, length, npos, get_elem?, get_elem?-lt, arith, some, ok,
  ◌>>=◌,
}
use clp_core.Logtype.{LogtypeEntry}
use clp_core.Dictionary.{
  DictionaryReader, write_uncommitted_entries_to_disk, files_of, open_reader, new_reader,
  read_new_entries, read_value,
}
use clp_core.Dictionary.Variable.{VarEntry, VarDictWriter, var_ops}
use clp_core.Dictionary.Lookup.{IsConsistent, log}
use clp_core.Dictionary.Writing.{write_uncommitted_entries_to_disk-IsConsistent}
use clp_core.Dictionary.Reading.{IndexedBelow, read_back_all}
use clp_core.Variables.Floats.{FloatLib, KeepsFifteenDigits}
use clp_core.Codec.{Encoded, encode_and_add_to_dictionary, decode_variables_into_message}
use clp_core.Codec.Encoding.{max_dict_vars}
use clp_core.Codec.Lossless.{IsSafe, decode_variables-encode, encode-IsConsistent}

-- A message that is encoded, whose dictionary is written to its file, is decoded with a reader of
-- that file to the same bytes; the reader opens and reads the file without an error. The dictionary
-- holds at most 2^62 - 1 entries, its index names entries of the file only, and the message is one
-- shorter than `npos` of which every part with the shape of a variable survives (`IsSafe`); the dictionary was consistent before, and the
-- library keeps fifteen digits.
pub decode-read-write-encode :
    (lib : FloatLib) (laws : KeepsFifteenDigits lib) (msg : Bytes)
    → IsSafe msg
    → length msg < npos
    → (entry : LogtypeEntry) (w w' : VarDictWriter) (r : Encoded) (out : Bytes) → IsConsistent w
    → encode_and_add_to_dictionary lib msg entry w [] ≡ ok r
    → r.writer.next_id ≤ max_dict_vars
    → write_uncommitted_entries_to_disk r.writer ≡ ok w'
    → IndexedBelow (length w'.written) w'.index
    → (reader : DictionaryReader VarEntry) × ((open_reader new_reader >>= λ r₀.
          read_new_entries var_ops r₀ (files_of w'))
        ≡ ok reader)
      × (decode_variables_into_message lib (read_value var_ops reader) r.entry r.encoded_vars out
          ≡ ok (some (out ++ msg)))
decode-read-write-encode lib laws msg safe short entry w w' r out c h few written b =
    let c' = encode-IsConsistent lib laws msg safe short entry w r c h in
    let (c'', same, none_left, _) =
      write_uncommitted_entries_to_disk-IsConsistent r.writer w' c' written in
    let (reader, reads, resolves) = read_back_all w' c'' none_left b in
    (
      reader,
      reads,
      decode_variables-encode lib laws msg safe short entry w r (read_value var_ops reader) out c h
          (λ id v (e, at, val). (
            resolves id v (e, ap (λ l. get_elem? l id) same ∙ at, val),
            omega (arith, get_elem?-lt (log r.writer) id at, c'.next),
          )),
    )
