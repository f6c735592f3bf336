-- ===== src/Resp/Parse.antt =====
-- src/resp.cpp, `parseRespCommand`. `position` is carried along with the text from there on.
use flash_kv.Common.{
  ℕ, zero, suc, ◌+◌, ◌*◌, ◌&&◌, Option, none, some, List, [], ◌∷◌, ◌++◌, Bytes, codes,
  if◌then◌else◌, leb, ltb, ◌==◌, length, take, drop,
}
use flash_kv.Common.Int.{ℤ, pos, negsuc}
use flash_kv.Common.Decimal.{parse_all}
use flash_kv.Resp.Tokenize.{tokenize_command_line}

abbrev pub max_arguments : ℕ
max_arguments = 1024 * 1024

abbrev pub max_bulk_size : ℕ
max_bulk_size = 512 * 1024 * 1024

abbrev pub max_inline_size : ℕ
max_inline_size = 64 * 1024

pub data RespParseStatus : Type 0 where
  complete incomplete error_status : RespParseStatus

pub record RespParseResult : Type 0 where
  pub status : RespParseStatus
  pub arguments : List Bytes
  pub consumed_bytes : ℕ
  pub error : Bytes

abbrev pub incomplete_result : RespParseResult
incomplete_result = record { status = incomplete; arguments = []; consumed_bytes = 0; error = [] }

abbrev pub error_result : Bytes → RespParseResult
error_result message = record {
  status = error_status;
  arguments = [];
  consumed_bytes = 0;
  error = message;
}

abbrev pub complete_result : List Bytes → ℕ → RespParseResult
complete_result arguments position = record {
  status = complete;
  arguments = arguments;
  consumed_bytes = position;
  error = [];
}

-- `find("\r\n")`: the text before the first one, and the text after it.
unfoldable pub find_crlf : Bytes → Option (Bytes × Bytes)
find_crlf [] = none
find_crlf (a ∷ []) = none
find_crlf (a ∷ b ∷ s) =
    if (a == b'\r') && (b == b'\n')
    then some ([], s)
    else elim (find_crlf (b ∷ s)) [ none ↦ none | some (line, rest) ↦ some (a ∷ line, rest) ]

-- `find('\n')`: the text before it.
unfoldable pub find_newline : Bytes → Option Bytes
find_newline [] = none
find_newline (c ∷ s) =
    let further : Option Bytes = elim (find_newline s) [
      | none ↦ none
      | some line ↦ some (c ∷ line)
    ] in
    if c == b'\n' then some [] else further

abbrev pub tokenized : ℕ → Option (List Bytes) → RespParseResult
tokenized line_end none = error_result (codes "Protocol error: unbalanced quotes in request")
tokenized line_end (some arguments) = complete_result arguments (line_end + 1)

unfoldable pub parse_inline_command : Bytes → RespParseResult
unfolding find_newline
parse_inline_command buffer = elim (find_newline buffer) [
  | none ↦
      if ltb max_inline_size (length buffer)
      then error_result (codes "Protocol error: too big inline request")
      else incomplete_result
  | some line ↦ tokenized (length line) (tokenize_command_line line)
]

-- A length that `parseInteger` reads and that is not negative and at most `limit`.
abbrev pub bounded : ℕ → Option ℤ → Option ℕ
bounded limit none = none
bounded limit (some (negsuc n)) = none
bounded limit (some (pos n)) = if leb n limit then some n else none

-- What a round of the loop over the arguments ends with.
pub data Bulk : Type 0 where
  read : Bytes → ℕ → Bytes → Bulk
  fails : RespParseResult → Bulk

-- The end of the data of a bulk string, in the text behind the data.
unfoldable pub after_data : Bytes → ℕ → Bytes → Bulk
after_data data_read data_end [] = fails incomplete_result
after_data data_read data_end (a ∷ []) = fails incomplete_result
after_data data_read data_end (a ∷ b ∷ s) =
    if (a == b'\r') && (b == b'\n')
    then read data_read (data_end + 2) s
    else fails (error_result (codes "Bulk string missing CRLF"))

-- The data of a bulk string of the given length, in the text from `data_start` on.
unfoldable pub bulk_data : ℕ → ℕ → Bytes → Bulk
unfolding after_data
bulk_data data_start n text =
    if ltb (length text) n
    then fails incomplete_result
    else after_data (take n text) (data_start + n) (drop n text)

unfoldable pub read_bulk : ℕ → Bytes → Bulk
unfolding find_crlf bulk_data
read_bulk position [] = fails incomplete_result
read_bulk position (c ∷ s) =
    if c == b'$'
    then elim (find_crlf s) [
      | none ↦ fails incomplete_result
      | some (header, text) ↦ elim (bounded max_bulk_size (parse_all header)) [
        | none ↦ fails (error_result (codes "Invalid bulk string length"))
        | some n ↦ bulk_data (position + 1 + length header + 2) n text
      ]
    ]
    else fails (error_result (codes "Expected RESP bulk string"))

-- The loop over the arguments: how many are left, `position`, the text from there, and those read.
unfoldable pub read_arguments : ℕ → ℕ → Bytes → List Bytes → RespParseResult
unfolding read_bulk
read_arguments zero position text arguments = complete_result arguments position
read_arguments (suc n) position text arguments = elim (read_bulk position text) [
  | fails result ↦ result
  | read argument position' text' ↦ read_arguments n position' text' (arguments ++ argument ∷ [])
]

-- The array behind its `*`.
unfoldable pub parse_array : Bytes → RespParseResult
unfolding find_crlf read_arguments
parse_array s = elim (find_crlf s) [
  | none ↦ incomplete_result
  | some (header, text) ↦ elim (bounded max_arguments (parse_all header)) [
    | none ↦ error_result (codes "Invalid array length")
    | some n ↦ read_arguments n (1 + length header + 2) text []
  ]
]

unfoldable pub parse_resp_command : Bytes → RespParseResult
unfolding parse_array parse_inline_command
parse_resp_command [] = incomplete_result
parse_resp_command (c ∷ s) = if c == b'*' then parse_array s else parse_inline_command (c ∷ s)
