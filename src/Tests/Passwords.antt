-- ===== src/Tests/Passwords.antt =====
-- A password that is longer than the size that the caller gives.
use mile_csa_jsonrpc_client.Base.{◌≡◌, refl, true, false, [], ◌∷◌, ◌++◌, codes, arith}
use mile_csa_jsonrpc_client.Base.Int.{pos}
use mile_csa_jsonrpc_client.Cli.Password.{getpasswd}
use mile_csa_jsonrpc_client.Cli.Password.Line.{typed, getpasswd-line}

getpasswd-line_example :
    getpasswd 4096
      (record { gets = true; sets = true; resets = true })
      true
      []
      4
      42
      (codes "secret" ++ (10 ∷ []))
    ≡ record { result = pos 0; text = codes "secret"; warned = false; rest = [] }
unfolding typed
getpasswd-line_example =
    getpasswd-line 4096 4 42 (record { gets = true; sets = true; resets = true }) []
      (codes "secret") [] (omega arith) (omega arith) refl refl
