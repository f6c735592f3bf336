-- ===== src/Format/Tests.antt =====
-- The theorems on the text of replies at small inputs.
use flash_kv.Common.{◌≡◌, arith, true, some, [], ◌∷◌, Bytes, codes}
use flash_kv.Resp.Tokenize.{tokenize_command_line}
use flash_kv.Format.Quote.{quote}
use flash_kv.Format.RoundTrip.{tokenize_command_line-quote}
use flash_kv.Format.Reply.{format_reply}
use flash_kv.Format.Total.{format_reply_returns}

-- A quote, a backslash, a line end, a byte above 127.
abbrev strange : Bytes
strange = b'a' ∷ b'"' ∷ b'\\' ∷ 10 ∷ 200 ∷ []

tokenize_command_line-quote_example : tokenize_command_line (quote strange) ≡ some (strange ∷ [])
tokenize_command_line-quote_example =
    tokenize_command_line-quote strange
      (omega arith, (omega arith, (omega arith, (omega arith, (omega arith, tt)))))

format_reply_returns_example : (output : Bytes) × (format_reply (codes "*1") true ≡ some output)
format_reply_returns_example = format_reply_returns (codes "*1") true
