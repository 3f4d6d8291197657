-- ===== src/Wire/Outcome.antt =====
-- What a member function of the codec does to its object: the return code of the source, and the
-- two ways in which a call does not return at all.
use mathlib.Core.Path.{◌≡◌, refl}

-- The codes of src/coev_kafka/errors.h that the codec returns; `unknown` is -1.
pub data Code : Type 0 where
  unknown : Code
  insufficient_data variant_overflow uvariant_overflow : Code
  tagged_fields_in_non_flexible_context invalid_string_length invalid_array_length : Code
  invalid_bool valid_byte_slice_length packet_decoding_error : Code
  encode_error decode_error : Code

-- `ok` is the return of 0 with what the out parameter holds, `err` that of another code (the out
-- parameter is then not modelled). `fault` is a failed assertion, an exception, or an access
-- outside of a buffer; `stuck` is a loop that does not end.
pub data Outcome (S A : Type 0) : Type 0 where
  ok : A → S → Outcome S A
  err : Code → S → Outcome S A
  fault : Outcome S A
  stuck : Outcome S A

abbrev pub M : Type 0 → Type 0 → Type 0
M S A = S → Outcome S A

module _ {S : Type 0} where
  abbrev pub pure : {A : Type 0} → A → M S A
  pure a s = ok a s

  abbrev pub fail : {A : Type 0} → Code → M S A
  fail c s = err c s

  abbrev pub crash : {A : Type 0} → M S A
  crash s = fault

  -- The rest runs only if the call returned 0.
  abbrev pub and_then : {A B : Type 0} → Outcome S A → (A → M S B) → Outcome S B
  and_then (ok a s) k = k a s
  and_then (err c s) k = err c s
  and_then fault k = fault
  and_then stuck k = stuck

  infixl 5 ◌>>=◌ ◌>>◌
  abbrev pub ◌>>=◌ : {A B : Type 0} → M S A → (A → M S B) → M S B
  ◌>>=◌ m k s = and_then (m s) k

  abbrev pub ◌>>◌ : {B : Type 0} → M S (Unit {0}) → M S B → M S B
  m >> k = m >>= λ _. k

  pub and_then_assoc :
      {A B C : Type 0} (r : Outcome S A) (f : A → M S B) (g : B → M S C)
      → and_then (and_then r f) g ≡ and_then r (λ a s. and_then (f a s) g)
  and_then_assoc (ok a s) f g = refl
  and_then_assoc (err c s) f g = refl
  and_then_assoc fault f g = refl
  and_then_assoc stuck f g = refl
