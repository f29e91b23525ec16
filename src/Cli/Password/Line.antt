-- ===== src/Cli/Password/Line.antt =====
-- What `getpasswd` reads: its index is never advanced.
use mile_csa_jsonrpc_client.Base.{ℕ, ◌-◌, ◌≤◌, ◌≡◌, refl, true, false}
use mile_csa_jsonrpc_client.Base.{some, List, [], ◌∷◌, ◌++◌, ◌==◌, ap}
use mile_csa_jsonrpc_client.Base.{if◌then◌else◌, Text, arith, Bool-cases, inl, inr, contains, ◌∙◌}
use mile_csa_jsonrpc_client.Base.Int.{pos}
use mile_csa_jsonrpc_client.Cli.Password.{shows, Reading, take_byte, goes_on, read_loop, Terminal}
use mile_csa_jsonrpc_client.Cli.Password.{cap_size, after_loop, getpasswd}

-- The bytes of a line without those of the delete key.
unfoldable pub typed : Text → Text
typed [] = []
typed (c ∷ s) = let rest = typed s in if c == 127 then rest else c ∷ rest

append-cons : (a : Text) (c : ℕ) (b : Text) → (a ++ (c ∷ [])) ++ b ≡ a ++ (c ∷ b)
append-cons [] c b = refl
append-cons (x ∷ a) c b = ap (λ t. x ∷ t) (append-cons a c b)

append-empty : (a : Text) → a ++ [] ≡ a
append-empty [] = refl
append-empty (x ∷ a) = ap (λ t. x ∷ t) (append-empty a)

-- With room for a byte the loop goes on at every byte but the newline.
goes_on_other : (sz c : ℕ) → 2 ≤ sz → (c == 10) ≡ false → goes_on sz c 0 ≡ true
unfolding goes_on
goes_on_other sz c h n = ground arith

goes_on_newline : (sz : ℕ) → 2 ≤ sz → goes_on sz 10 0 ≡ false
unfolding goes_on
goes_on_newline sz h = ground arith

-- The loop started at index 0 with `pw` and `echoed`.
abbrev from : Text → Text → Reading
from pw echoed = record { idx = 0; pw = pw; echoed = echoed }

take_byte_delete :
    (mask c : ℕ) (pw e : Text) → (c == 127) ≡ true → take_byte mask c (from pw e) ≡ from pw e
unfolding take_byte
take_byte_delete mask c pw e h = rw (h)

take_byte_other :
    (mask c : ℕ) (pw e : Text)
    → (c == 127) ≡ false
    → (f : Text) × (take_byte mask c (from pw e) ≡ from (pw ++ (c ∷ [])) f)
unfolding take_byte
take_byte_other mask c pw e h = (if shows mask then e ++ (mask ∷ []) else e, rw (h))

not_first :
    (c : ℕ) (line : List ℕ)
    → contains 10 (c ∷ line) ≡ false
    → (c == 10 ≡ false) × (contains 10 line ≡ false)
not_first c line n = (ground arith, ground arith)

read_loop_goes :
    (sz mask c : ℕ) (input : List ℕ) (r : Reading)
    → goes_on sz c r.idx ≡ true
    → read_loop sz mask (c ∷ input) r ≡ read_loop sz mask input (take_byte mask c r)
unfolding read_loop
read_loop_goes sz mask c input r h = rw (read_loop, h)

read_loop_stops :
    (sz mask c : ℕ) (input : List ℕ) (r : Reading)
    → goes_on sz c r.idx ≡ false
    → read_loop sz mask (c ∷ input) r ≡ (r, some c, input)
unfolding read_loop
read_loop_stops sz mask c input r h = rw (read_loop, h)

-- With room for a byte the loop takes the whole line and its index stays 0.
read_loop-line :
    (sz mask : ℕ) (line rest : List ℕ) (pw e : Text)
    → 2 ≤ sz
    → contains 10 line ≡ false
    → (f : Text) × (read_loop sz mask (line ++ (10 ∷ rest)) (from pw e)
        ≡ (from (pw ++ typed line) f, some 10, rest))
unfolding typed read_loop
read_loop-line sz mask [] rest pw e h n = (
  e,
  rw (typed, append-empty pw) (read_loop_stops sz mask 10 rest (from pw e) (goes_on_newline sz h)),
)
read_loop-line sz mask (c ∷ line) rest pw e h n =
    let input = line ++ (10 ∷ rest) in
    let goes =
      read_loop_goes sz mask c input (from pw e) (goes_on_other sz c h (not_first c line n).0) in
    elim (Bool-cases (c == 127)) [
      | inl d ↦
          let step = read_loop-line sz mask line rest pw e h (not_first c line n).1 in
          (step.0, goes ∙ rw (take_byte_delete mask c pw e d, typed, d) step.1)
      | inr d ↦
          let next = take_byte_other mask c pw e d in
          let step =
            read_loop-line sz mask line rest (pw ++ (c ∷ [])) next.0 h (not_first c line n).1 in
          (step.0, goes ∙ rw (next.1, typed, d) (rw (append-cons pw c (typed line)) at step.1))
    ]

cap_size_room : (maxpw sz : ℕ) → 2 ≤ sz → 2 ≤ maxpw → 2 ≤ cap_size maxpw sz
unfolding cap_size
cap_size_room maxpw sz h k = ground arith

not_full : (sz : ℕ) → 2 ≤ sz → (0 == (sz - 1)) ≡ false
not_full sz h = ground arith

nonzero : (sz : ℕ) → 2 ≤ sz → sz == 0 ≡ false
nonzero sz h = ground arith

getpasswd_reads :
    (maxpw sz mask : ℕ) (t : Terminal) (pw input : List ℕ)
    → 2 ≤ sz
    → t ≡ record { gets = true; sets = true; resets = true }
    → getpasswd maxpw t true pw sz mask input
      ≡ after_loop (cap_size maxpw sz) t (read_loop (cap_size maxpw sz) mask input (from [] []))
unfolding getpasswd
getpasswd_reads maxpw sz mask t pw input h a = rw (a, nonzero sz h)

-- On a terminal that answers, with room for at least one byte, and a line that has no newline
-- inside: the result is 0, and the password is the whole line without the delete bytes, whatever
-- its length and without the warning; only the line is taken from the input.
pub getpasswd-line :
    (maxpw sz mask : ℕ) (t : Terminal) (pw line rest : List ℕ)
    → 2 ≤ sz
    → 2 ≤ maxpw
    → t ≡ record { gets = true; sets = true; resets = true }
    → contains 10 line ≡ false
    → getpasswd maxpw t true pw sz mask (line ++ (10 ∷ rest))
      ≡ record { result = pos 0; text = typed line; warned = false; rest = rest }
unfolding after_loop typed
getpasswd-line maxpw sz mask t pw line rest h k a n =
    let room = cap_size_room maxpw sz h k in
    let step = read_loop-line (cap_size maxpw sz) mask line rest [] [] room n in
    getpasswd_reads maxpw sz mask t pw (line ++ (10 ∷ rest)) h a
    ∙ rw (step.1, a, after_loop, not_full (cap_size maxpw sz) room)
