-- ===== src/Effects.antt =====
-- What calls do besides returning: exceptions, undefined behaviour, and a state that is passed on.
use mile_csa_jsonrpc_client.Base.{Bool, true, false, Option, none, some, String}

-- The codes of `milecsa::result` that the client reports to an error handler.
pub data Code : Type 0 where
  fail exception empty not_found not_supported timeout : Code

-- The exceptions that the client tells apart: those of nlohmann::json, any other that derives from
-- `std::exception`, and any that does not.
pub data Exception : Type 0 where
  std_exception parse_error invalid_iterator type_error json_out_of_range other_error : Exception
  foreign : Exception

-- The exceptions of nlohmann::json derive from `std::exception`.
abbrev pub is_std : Exception → Bool
is_std foreign = false
is_std _ = true

-- A report to the error handler: the code, and the format of the message. The values that the
-- message is filled with are not kept.
pub record Report : Type 0 where
  pub code : Code
  pub message : String

abbrev pub report : Code → String → Report
report c m = record { code = c; message = m }

-- `undefined` is undefined behaviour, such as a dereferenced null pointer or empty optional; `hung`
-- is a call that never returns.
pub data Result {ℓ} (A : Type ℓ) : Type ℓ where
  returned : A → Result A
  threw : Exception → Result A
  undefined hung : Result A

-- A computation over the states `W`.
abbrev pub M : Type 0 → Type 0 → Type 0
M W A = W → Result A × W

abbrev pub pure : {W A : Type 0} → A → M W A
pure a w = (returned a, w)

abbrev pub raise : {W A : Type 0} → Exception → M W A
raise e w = (threw e, w)

abbrev pub lift : {W A : Type 0} → Result A → M W A
lift r w = (r, w)

abbrev pub continue_with : {W A B : Type 0} → (A → M W B) → Result A × W → Result B × W
continue_with f (returned a, w) = f a w
continue_with f (threw e, w) = (threw e, w)
continue_with f (undefined, w) = (undefined, w)
continue_with f (hung, w) = (hung, w)

infixl 5 ◌>>=◌ ◌>>◌
abbrev pub ◌>>=◌ : {W A B : Type 0} → M W A → (A → M W B) → M W B
◌>>=◌ m f w = continue_with f (m w)

abbrev pub ◌>>◌ : {W B : Type 0} → M W (Unit {0}) → M W B → M W B
m >> k = m >>= λ _. k

-- `*o` of an optional.
abbrev pub deref : {W A : Type 0} → Option A → M W A
deref (some a) w = (returned a, w)
deref none w = (undefined, w)

-- A `try` block and its handlers.
abbrev pub handle : {W A : Type 0} → (Exception → M W A) → Result A × W → Result A × W
handle h (returned a, w) = (returned a, w)
handle h (threw e, w) = h e w
handle h (undefined, w) = (undefined, w)
handle h (hung, w) = (hung, w)

abbrev pub try_catch : {W A : Type 0} → M W A → (Exception → M W A) → M W A
try_catch m h w = handle h (m w)
