-- ===== src/Json/Write.antt =====
-- `json.dumps` with sorted keys, in two parts: the members of every object are put in the order of
-- their keys, and the result is written in front of what follows, member by member as they stand.
use Prim.Native.String.{[] as empty, ◌∷◌ as cons_char, ◌++◌ as append, compare}
use text.Mathlib.Text.{is_le}
use text.Mathlib.TextLemmas.{nil-append, cons-append, append_assoc}
use nlboot.Base.{String, ◌≡◌, ap, ◌∙◌, Bool, true, false, if◌then◌else◌}
use nlboot.Json.{Value, Items, Fields, null, bool, num, str, arr, obj, nil, cons, end, field}
use nlboot.Json.Dump.{escape_char, escape, quote}

-- a member in front of the first whose key is no smaller
unfoldable pub insert_field : String → Value → Fields → Fields
insert_field k v end = field k v end
insert_field k v (field j w fs) =
    if is_le (compare k j) then field k v (field j w fs) else field j w (insert_field k v fs)

unfoldable mutual
  unfolding insert_field

  -- the value with the members of its objects in the order of their keys, however deep they stand
  pub sorted : Value → Value
  sorted (arr xs) = arr (sorted_items xs)
  sorted (obj fs) = obj (sorted_fields fs)
  sorted v = v

  pub sorted_items : Items → Items
  sorted_items nil = nil
  sorted_items (cons x xs) = cons (sorted x) (sorted_items xs)

  pub sorted_fields : Fields → Fields
  sorted_fields end = end
  sorted_fields (field k v fs) = insert_field k (sorted v) (sorted_fields fs)

unfoldable pub put_text : String → String → String
put_text empty x = cons_char "\"" x
put_text (cons_char c s) x = append (escape_char c) (put_text s x)

-- `,` but in front of the first part
unfoldable pub put_comma : Bool → String → String
put_comma true x = x
put_comma false x = cons_char "," x

unfoldable mutual
  unfolding put_text put_comma

  -- the value, and what follows it
  pub put : Value → String → String
  put null x = append "null" x
  put (bool true) x = append "true" x
  put (bool false) x = append "false" x
  put (num n) x = append n x
  put (str s) x = cons_char "\"" (put_text s x)
  put (arr xs) x = cons_char "[" (put_items true xs x)
  put (obj fs) x = cons_char "{" (put_fields true fs x)

  pub put_items : Bool → Items → String → String
  put_items first nil x = cons_char "]" x
  put_items first (cons v vs) x = put_comma first (put v (put_items false vs x))

  pub put_fields : Bool → Fields → String → String
  put_fields first end x = cons_char "}" x
  put_fields first (field k v fs) x =
      put_comma first (cons_char "\"" (put_text k (cons_char ":" (put v (put_fields false fs x)))))

append-escape : (s x : String) → append (escape s) (cons_char "\"" x) ≡ put_text s x
unfolding escape put_text
append-escape empty x = nil-append _
append-escape (cons_char c s) x =
    append_assoc (escape_char c) (escape s) _ ∙ ap (append (escape_char c)) (append-escape s x)

pub append-quote : (s x : String) → append (quote s) x ≡ cons_char "\"" (put_text s x)
unfolding quote
append-quote s x =
    cons-append "\"" _ x
    ∙ ap (cons_char "\"") (
        append_assoc (escape s) "\"" x
        ∙ ap (append (escape s)) (cons-append "\"" empty x ∙ ap (cons_char "\"") (nil-append x))
        ∙ append-escape s x)
