-- ===== src/Resp/Tests.antt =====
-- The round trip at a small command, and runs of the tokenizer.
use flash_kv.Common.{
  ◌≤◌, ◌≡◌, refl, Option, some, none, List, [], ◌∷◌, ◌++◌, arith, Bytes, codes, length,
}
use flash_kv.Resp.Encode.{resp_array}
use flash_kv.Resp.Tokenize.{go, between, scan_loop, scan_fuel, tokenize_command_line}
use flash_kv.Resp.Total.{scan_loop-scan_fuel}
use flash_kv.Resp.Bounds.{parse_resp_command-consumed_bytes}
use flash_kv.Resp.Parse.{complete, max_arguments, complete_result, parse_resp_command}
use flash_kv.Resp.RoundTrip.{AreWithinLimits, parse_resp_command-resp_array}

abbrev command : List Bytes
command = codes "SET" ∷ codes "k" ∷ []

few : length command ≤ max_arguments
few = omega arith

limits : AreWithinLimits command
limits = (omega arith, (omega arith, tt))

parse_resp_command-resp_array_example :
    parse_resp_command (resp_array command ++ codes "*1")
    ≡ complete_result command (length (resp_array command))
parse_resp_command-resp_array_example =
    parse_resp_command-resp_array command (codes "*1") few limits

abbrev line : Bytes
line = codes "SET k 'a b'"

scan_loop-scan_fuel_example :
    (result : Option (List Bytes)) × (scan_loop (scan_fuel line) (go (between [] line))
      ≡ some result)
scan_loop-scan_fuel_example = scan_loop-scan_fuel line

abbrev ping : Bytes
ping = codes "PING\nrest"

ping_status : (parse_resp_command ping).status ≡ complete
unfolding parse_resp_command tokenize_command_line
ping_status = refl

parse_resp_command-consumed_bytes_example :
    (1 ≤ (parse_resp_command ping).consumed_bytes)
    × ((parse_resp_command ping).consumed_bytes ≤ length ping)
parse_resp_command-consumed_bytes_example = parse_resp_command-consumed_bytes ping ping_status

-- Runs of the code.
two_words :
    tokenize_command_line (codes " GET  \"a b\\x41\" ") ≡ some (codes "GET" ∷ codes "a bA" ∷ [])
unfolding tokenize_command_line
two_words = refl

unbalanced : tokenize_command_line (codes "GET 'a") ≡ none
unfolding tokenize_command_line
unbalanced = refl

inline_command : parse_resp_command (codes "PING\nrest") ≡ complete_result (codes "PING" ∷ []) 5
unfolding parse_resp_command tokenize_command_line
inline_command = refl
