-- ===== src/Verify/Sorted.antt =====
-- The readers of verify.py on an object whose members stand in another order, at any depth.
use mathlib.Core.Option
use nlboot.Base.{
  ℕ, String, ◌≡◌, refl, ap, ◌∙◌, Option, none, some, Result, ◌>>=◌, ◌>>◌, Dict, insert, or_raise,
  [],
}
use nlboot.Json.{
  Value, Items, Fields, str, arr, obj, nil, cons, get, is_text, text_of, object_of, array_of,
}
use nlboot.Json.Write.{sorted, sorted_items, sorted_fields}
use nlboot.Json.Faithful.{get-sorted_fields, get_or-sorted_fields}
use nlboot.Time.{IsoFormat}
use nlboot.Verify.{
  VerificationError, TrustedKey, from_dict, load_keys, load_trusted_keys, filled_text, read_status,
  read_pem, read_reason, optional_time, validate_lifecycle, keys_not_array,
}

filled_text-sorted : (v : Value) → filled_text (sorted v) ≡ filled_text v
unfolding sorted
filled_text-sorted (str s) = refl
filled_text-sorted _ = refl

pub text_of-sorted : (v : Value) → text_of (sorted v) ≡ text_of v
unfolding sorted
text_of-sorted (str s) = refl
text_of-sorted _ = refl

pub is_text-sorted : (v : Value) (text : String) → is_text (sorted v) text ≡ is_text v text
unfolding sorted
is_text-sorted (str s) text = refl
is_text-sorted _ text = refl

read_pem-sorted : (v : Value) → read_pem (sorted v) ≡ read_pem v
unfolding sorted
read_pem-sorted (str s) = refl
read_pem-sorted _ = refl

read_status-sorted : (v : Value) → read_status (sorted v) ≡ read_status v
unfolding sorted
read_status-sorted (str s) = refl
read_status-sorted _ = refl

read_reason-sorted : (v : Value) → read_reason (sorted v) ≡ read_reason v
unfolding sorted
read_reason-sorted (str s) = refl
read_reason-sorted _ = refl

object_of-sorted : (v : Value) → object_of (sorted v) ≡ Option.map sorted_fields (object_of v)
unfolding sorted
object_of-sorted (obj fs) = refl
object_of-sorted _ = refl

array_of-sorted : (v : Value) → array_of (sorted v) ≡ Option.map sorted_items (array_of v)
unfolding sorted
array_of-sorted (arr xs) = refl
array_of-sorted _ = refl

ruleset readers = (
  get-sorted_fields, filled_text-sorted, text_of-sorted, read_pem-sorted, read_status-sorted,
  read_reason-sorted,
)

module _ (iso : IsoFormat) where
  optional_time-sorted :
      (v : Value) (key : String) → optional_time iso (sorted v) key ≡ optional_time iso v key
  unfolding sorted optional_time
  optional_time-sorted (str s) key = refl
  optional_time-sorted _ key = refl

  from_dict-sorted : (fs : Fields) → from_dict iso (sorted_fields fs) ≡ from_dict iso fs
  unfolding from_dict sorted
  from_dict-sorted fs =
      simp (readers, optional_time-sorted, get_or-sorted_fields fs "status" (str "active") refl)

  load_keys-sorted :
      (now : Option ℕ) (clock : ℕ) (loaded : Dict TrustedKey) (xs : Items)
      → load_keys iso now clock loaded (sorted_items xs) ≡ load_keys iso now clock loaded xs
  unfolding load_keys sorted
  load_keys-sorted now clock loaded nil = refl
  load_keys-sorted now clock loaded (cons (obj fs) xs) =
      ap
        (λ key. key >>= λ k.
          validate_lifecycle k now clock
          >> load_keys iso now clock (insert k.key_ref k loaded) (sorted_items xs))
        (from_dict-sorted fs)
      ∙ λ i. from_dict iso fs >>= λ k.
          validate_lifecycle k now clock
          >> load_keys-sorted now clock (insert k.key_ref k loaded) xs i
  load_keys-sorted now clock loaded (cons _ xs) = refl

  -- `load_trusted_keys` from the array on
  unfoldable pub keys_in : Option ℕ → ℕ → Option Items → Result VerificationError (Dict TrustedKey)
  keys_in now clock xs = or_raise xs keys_not_array >>= λ keys. load_keys iso now clock [] keys

  keys_in-sorted :
      (now : Option ℕ) (clock : ℕ) (xs : Option Items)
      → keys_in now clock (Option.map sorted_items xs) ≡ keys_in now clock xs
  unfolding keys_in
  keys_in-sorted now clock none = refl
  keys_in-sorted now clock (some xs) = load_keys-sorted now clock [] xs

  pub load_trusted_keys-sorted :
      (fs : Fields) (now : Option ℕ) (clock : ℕ)
      → load_trusted_keys iso (sorted_fields fs) now clock ≡ load_trusted_keys iso fs now clock
  unfolding load_trusted_keys sorted_fields keys_in
  load_trusted_keys-sorted fs now clock =
      ap (λ v. keys_in now clock (array_of v)) (get-sorted_fields fs "keys")
      ∙ ap (keys_in now clock) (array_of-sorted (get fs "keys"))
      ∙ keys_in-sorted now clock (array_of (get fs "keys"))
