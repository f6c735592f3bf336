-- ===== src/Resp/Encode.antt =====
-- src/resp.cpp, `respSimpleString` to `respEncodedArray`.
use flash_kv.Common.{List, [], ◌∷◌, ◌++◌, Bytes, codes, length}
use flash_kv.Common.Int.{ℤ}
use flash_kv.Common.Decimal.{to_string, to_string_ℤ}

abbrev pub crlf : Bytes
crlf = b'\r' ∷ b'\n' ∷ []

unfoldable pub resp_simple_string : Bytes → Bytes
resp_simple_string value = b'+' ∷ value ++ crlf

unfoldable pub resp_error : Bytes → Bytes
resp_error message = codes "-ERR " ++ message ++ crlf

unfoldable pub resp_error_with_code : Bytes → Bytes → Bytes
resp_error_with_code code message = b'-' ∷ code ++ b' ' ∷ message ++ crlf

unfoldable pub resp_integer : ℤ → Bytes
unfolding to_string_ℤ
resp_integer value = b':' ∷ to_string_ℤ value ++ crlf

unfoldable pub resp_bulk_string : Bytes → Bytes
unfolding to_string
resp_bulk_string value = b'$' ∷ to_string (length value) ++ crlf ++ value ++ crlf

unfoldable pub resp_null : Bytes
resp_null = codes "$-1" ++ crlf

-- The loop of `encoded += ...` over the elements.
unfoldable pub bulk_strings : List Bytes → Bytes
unfolding resp_bulk_string
bulk_strings [] = []
bulk_strings (argument ∷ arguments) = resp_bulk_string argument ++ bulk_strings arguments

unfoldable pub resp_array : List Bytes → Bytes
unfolding bulk_strings to_string
resp_array arguments = b'*' ∷ to_string (length arguments) ++ crlf ++ bulk_strings arguments

unfoldable pub joined : List Bytes → Bytes
joined [] = []
joined (element ∷ elements) = element ++ joined elements

unfoldable pub resp_encoded_array : List Bytes → Bytes
unfolding joined to_string
resp_encoded_array elements = b'*' ∷ to_string (length elements) ++ crlf ++ joined elements
