-- ===== src/Url/Pattern.antt =====
-- The regular expression of `Url::Parse`.
use mile_csa_jsonrpc_client.Base.{codes}
use mile_csa_jsonrpc_client.Regex.{Regex, chr, seq, alt, opt, many, many1, group, literal}

-- `(https?|ftp)`
unfoldable pub scheme : Regex
unfolding literal
scheme = group 1 (alt (seq (literal (codes "http")) (opt (chr b's'))) (literal (codes "ftp")))

-- `([^/ :]+):?([^/ ]*)`
unfoldable pub authority : Regex
authority = seq (group 2 (many1 (codes "/ :"))) (seq (opt (chr b':')) (group 3 (many (codes "/ "))))

-- `(/?[^ #?]*)`
unfoldable pub file_path : Regex
file_path = group 4 (seq (opt (chr b'/')) (many (codes " #?")))

-- `\x3f?([^ #]*)#?([^ ]*)`
unfoldable pub tail : Regex
tail =
    seq (opt (chr 0x3f))
      (seq (group 5 (many (codes " #"))) (seq (opt (chr b'#')) (group 6 (many (codes " ")))))

unfoldable pub url_regex : Regex
url_regex = seq scheme (seq (literal (codes "://")) (seq authority (seq file_path tail)))
