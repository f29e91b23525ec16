-- ===== src/Cli/Password.antt =====
-- `getpasswd` of mile_cli_wallet/mile_cli_transfer.cpp: a password is read byte by byte from the
-- terminal. The input is the list of bytes that `fgetc` will give, and its end is EOF.
pub mod Line
use mile_csa_jsonrpc_client.Base.{
  ℕ, zero, suc, ◌+◌, ◌-◌, Bool, true, false, not, ◌&&◌, ◌||◌, Option, none,
}
use mile_csa_jsonrpc_client.Base.{some, List, [], ◌∷◌, ◌++◌, leb, ltb, ◌==◌, if◌then◌else◌, Text}
use mile_csa_jsonrpc_client.Base.Int.{ℤ, pos, negsuc}

-- The variables of the loop, and what it has written to the terminal.
pub record Reading : Type 0 where
  pub idx : ℕ
  pub pw : Text
  pub echoed : Text

abbrev newline : ℕ
newline = 10

abbrev delete : ℕ
delete = 127

-- `if (31 < mask && mask < 127)`
abbrev pub shows : ℕ → Bool
shows mask = ltb 31 mask && ltb mask 127

-- `pw[i] = '\0'`
unfoldable pub clear_at : ℕ → Text → Text
clear_at i [] = []
clear_at zero (x ∷ s) = 0 ∷ s
clear_at (suc i) (x ∷ s) = x ∷ clear_at i s

-- The body of the loop, at the byte `c`.
unfoldable pub take_byte : ℕ → ℕ → Reading → Reading
unfolding clear_at
take_byte mask c r =
    if not (c == delete)
    then record r {
      pw = r.pw ++ (c ∷ []);
      echoed = if shows mask then r.echoed ++ (mask ∷ []) else r.echoed;
    }
    else if ltb 0 r.idx
    then record r {
      idx = r.idx - 1;
      pw = clear_at (r.idx - 1) r.pw;
      echoed = if shows mask then r.echoed ++ (8 ∷ 32 ∷ 8 ∷ []) else r.echoed;
    }
    else r

-- The condition of the loop at a byte that is not EOF; at EOF it is false.
unfoldable pub goes_on : ℕ → ℕ → ℕ → Bool
goes_on sz c idx = (not (c == newline) && ltb idx (sz - 1)) || (idx == (sz - 1) && c == delete)

-- The loop, with the byte that ended it (`none` is EOF) and the input that is left.
unfoldable pub read_loop : ℕ → ℕ → List ℕ → Reading → Reading × Option ℕ × List ℕ
read_loop sz mask [] r = (r, none, [])
read_loop sz mask (c ∷ input) r = elim (goes_on sz c r.idx) [
  | true ↦ read_loop sz mask input (take_byte mask c r)
  | false ↦ (r, some c, input)
]

-- The terminal: do `tcgetattr` and the two calls of `tcsetattr` succeed?
pub record Terminal : Type 0 where
  pub gets : Bool
  pub sets : Bool
  pub resets : Bool

-- What a call leaves: the result, `pw`, whether the warning about a cut password was printed, and
-- the input that is left.
pub record Password : Type 0 where
  pub result : ℤ
  pub text : Text
  pub warned : Bool
  pub rest : List ℕ

-- `if (sz > MAXPW) sz = MAXPW;`
unfoldable pub cap_size : ℕ → ℕ → ℕ
cap_size maxpw sz = if ltb maxpw sz then maxpw else sz

abbrev is_newline : Option ℕ → Bool
is_newline none = false
is_newline (some c) = c == newline

unfoldable pub after_loop : ℕ → Terminal → Reading × Option ℕ × List ℕ → Password
after_loop sz t (r, last, input) =
    if not t.resets
    then record { result = negsuc 0; text = r.pw; warned = false; rest = input }
    else record {
      result = pos r.idx;
      text = r.pw;
      warned = r.idx == (sz - 1) && not (is_newline last);
      rest = input;
    }

-- The checks before the loop; `has_file` is `fp != nullptr`, and `pw` what the string held before.
unfoldable pub getpasswd : ℕ → Terminal → Bool → Text → ℕ → ℕ → List ℕ → Password
getpasswd maxpw t has_file pw sz mask input =
    if sz == 0 || not has_file
    then record { result = negsuc 0; text = pw; warned = false; rest = input }
    else if not (t.gets && t.sets)
    then record { result = negsuc 0; text = []; warned = false; rest = input }
    else after_loop (cap_size maxpw sz) t
        (read_loop (cap_size maxpw sz) mask input (record { idx = 0; pw = []; echoed = [] }))
