-- ===== src/Cli/Options/Steps.antt =====
-- Steps of `parse_cmdline` that return or throw, and keep a property of the state.
use mile_csa_jsonrpc_client.Base.{
  ◌≢◌, refl, Bool, true, false, Option, none, some, Text, if◌then◌else◌,
}
use mile_csa_jsonrpc_client.Effects.{Result, returned, threw, undefined, hung, M, continue_with}
use mile_csa_jsonrpc_client.Cli.Options.{KeyLibrary, pair_for, Entry, Value, store, assign}

-- What is relied on: making a pair returns or throws.
pub record IsKeyLibrary (K : KeyLibrary) : Type 0 where
  pub random_defined : K.random ≢ undefined
  pub random_ends : K.random ≢ hung
  pub secret_defined : (phrase : Text) → K.with_secret phrase ≢ undefined
  pub secret_ends : (phrase : Text) → K.with_secret phrase ≢ hung

abbrev pub IsMade : {A : Type 0} → Result A → Type 0
IsMade r = (r ≢ undefined) × (r ≢ hung)

module _ (K : KeyLibrary) (pairs : IsKeyLibrary K) where
  random_or-IsMade :
      (b : Bool) (phrase : Text) → IsMade (if b then K.random else K.with_secret phrase)
  random_or-IsMade true phrase = (pairs.random_defined, pairs.random_ends)
  random_or-IsMade false phrase = (pairs.secret_defined phrase, pairs.secret_ends phrase)

  pub pair_for-IsMade : (phrase : Text) → IsMade (pair_for K phrase)
  unfolding pair_for
  pair_for-IsMade phrase = random_or-IsMade _ phrase

module _ {W : Type 0} (Q : W → Type 0) where
  -- The step returns or throws, with a state that has the property.
  abbrev pub Holds : {A : Type 0} → Result A × W → Type 0
  Holds (returned a, s) = Q s
  Holds (threw e, s) = Q s
  Holds (undefined, s) = ⊥
  Holds (hung, s) = ⊥

  pub store-Holds :
      {A F : Type 0} (cast : Value F → Option A) (f : A → W → W) (o : Option (Entry F)) (s : W)
      → ((a : A) → Q (f a s))
      → Q s
      → Holds (store cast f o s)
  store-Holds cast f none s k h = h
  store-Holds cast f (some e) s k h = go (cast e.value)
    where
      go : (c : Option _) → Holds (assign f c s)
      go none = h
      go (some a) = k a

  pub then-Holds :
      {A B : Type 0} (p : Result A × W) (f : A → M W B)
      → Holds p
      → ((a : A) (s : W) → Q s → Holds (f a s))
      → Holds (continue_with f p)
  then-Holds (returned a, s) f h g = g a s h
  then-Holds (threw e, s) f h g = h
  then-Holds (undefined, s) f h g = h
  then-Holds (hung, s) f h g = h

  pub made-Holds : {A : Type 0} (r : Result A) (s : W) → IsMade r → Q s → Holds (r, s)
  made-Holds (returned a) s m h = h
  made-Holds (threw x) s m h = h
  made-Holds undefined s m h = m.0 refl
  made-Holds hung s m h = m.1 refl

  -- What is returned has the property.
  abbrev pub Returning : {A : Type 0} → Result A × W → Type 0
  Returning (returned a, s) = Q s
  Returning (threw e, s) = Unit {0}
  Returning (undefined, s) = Unit {0}
  Returning (hung, s) = Unit {0}

  pub then-Returning :
      {A B : Type 0} (p : Result A × W) (f : A → M W B)
      → ((a : A) (s : W) → Returning (f a s))
      → Returning (continue_with f p)
  then-Returning (returned a, s) f g = g a s
  then-Returning (threw e, s) f g = tt
  then-Returning (undefined, s) f g = tt
  then-Returning (hung, s) f g = tt
