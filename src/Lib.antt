-- ===== src/Lib.antt =====
-- A model of the core of CLP, which compresses text logs so that they can be searched: a message is
-- split into a logtype, which is its constant text with placeholders, and variables, which are numbers
-- or entries of a dictionary.
--
-- The parts and how they interact:
-- - Messages: src/ParsedMessage.cpp and src/MessageParser.cpp cut a raw log into messages, at lines
--   that begin with a timestamp. Which lines do is an interface, TimestampParser, which
--   Messages/Timestamped fills with the known patterns.
-- - Timestamps: src/TimestampPattern.cpp, which parses timestamps, and writes them in front of messages.
--   The date library is a parameter (DateLib), whose laws stand in Timestamps/RoundTrip. Timestamps/Formatted
--   says what a timestamp looks like under a format; Timestamps/Digits, Timestamps/Names,
--   Timestamps/FieldText and Timestamps/FormatText compare the writer and the parser with that.
-- - Chars and Tokens: the functions of src/Utils.cpp that find the variables of a message,
--   get_bounds_of_next_var and trim_punctuation_of_variable.
-- - Logtype: src/LogTypeDictionaryEntry.cpp. LogtypeEntry holds the text and the positions of the
--   placeholders; Logtype/NextVar is parse_next_var, Logtype/Parts says which entries the operations
--   build, Logtype/Escape and Logtype/Reading are about the form on the disk.
-- - Dictionary: src/DictionaryWriter.hpp and src/DictionaryReader.hpp, with the entries and add_occurrence
--   of src/VariableDictionaryEntry.hpp and src/VariableDictionaryWriter.cpp in Dictionary/Variable, and of
--   src/LogTypeDictionaryWriter.cpp in Dictionary/Logtypes. A hash map is an association list, newest
--   pair first. A file is its header's count and the list of the entries written; its bytes and its
--   compressor are not modelled.
-- - Decimal: strtoll and std::to_string, as far as the sources use them.
-- - Variables: the conversions of src/EncodedVariableInterpreter.cpp between texts and 64-bit values. The
--   conversions of doubles are those of the C library, a parameter (FloatLib) with the laws of
--   Variables/Floats.
-- - Codec: encode_and_add_to_dictionary and decode_variables_into_message of the same file, over all of
--   the above. Codec/Spelling says what encoded parts mean, Codec/Steps, Codec/Encoding and Codec/Lossless
--   follow the encoder's loop, Codec/Totality shows that it returns, Codec/Archived goes through the files.
-- - Query: src/Query.cpp, the variables, subqueries and relevant subqueries of a search. Query/Relevance
--   keeps a history of the calls beside it.
-- - Wildcards: clean_up_wildcard_search_string of src/Utils.cpp, with the meaning of a wildcard string;
--   Wildcards/Matcher is wildcard_match_simple, whose rounds are given as many as indices and bookmarks
--   could take, without a proof that they are enough.
-- - Grep: process_raw_query of src/Grep.cpp, with the tokens of a search string. Tokens/Potential is
--   get_bounds_of_next_potential_var, Grep/Subqueries makes a subquery of one combination of the tokens'
--   types, Grep/Queries loops over the combinations, Grep/Combinations and Grep/Visits say which these are,
--   Grep/Keeping and Grep/Fresh follow a subquery that is cleared and used again, and Grep/Processing
--   what comes of trying them.
-- - Search: encode_and_search_dictionary, the lookup of a search's variable, over Query, Variables and the
--   dictionary's reader.
-- - Files: src/streaming_archive/reader/File.cpp from message to message, and decompress_message of
--   src/streaming_archive/reader/Archive.cpp in Files/Decompressing. Holds (Files/Reading) says which
--   messages a file has left, At (Files/Columns) describes a file by the columns of its messages.
--   Grep/Finding is find_matching_message of src/Grep.cpp on it.
-- - Base: bytes, lists, tests, signed integers and the outcome of a function that may throw.
--
-- Conventions: a byte is a number, a text a list of bytes, a size a natural number; 64-bit signed values
-- are integers, with the wrap-around written where the source makes one (as_int64). The result of a
-- function that may throw is an Outcome. Loops that are not structural take fuel: the search for a
-- variable, the encoder and the parser of a buffer get one round more than the message or the buffer has
-- bytes, and the cutting of a search string as many, which is enough since each round moves on by a byte
-- at least; the loop over combinations gets as many rounds as there are. That is part of what is proved.
-- A message is shorter than std::string::npos where that matters. Reference parameters are fields of a
-- state that goes in and comes out.
--
-- Not modelled: the loops that search a file, the writer of archives, how the reader opens files and
-- segments, the older matcher of wildcards, the preloading of dictionaries; the metadata databases, the
-- compression streams, files and the command lines are calls of libraries and of the operating system.
-- The vector of subqueries is not reallocated in the model: a pointer into it is an index.
pub mod Base
pub mod Chars
pub mod Tokens
pub mod Logtype
pub mod Decimal
pub mod Dictionary
pub mod Variables
pub mod Codec
pub mod Query
pub mod Messages
pub mod Wildcards
pub mod Search
pub mod Timestamps
pub mod Grep
pub mod Files
