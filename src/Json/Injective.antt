-- ===== src/Json/Injective.antt =====
-- `json.dumps` with sorted keys tells values apart: what is written in front of a text determines
-- the value and the text.
use Prim.Native.Char.{code}
use Prim.Native.String.{[] as empty, ◌∷◌ as cons_char}
use text.Mathlib.TextLemmas.{cons-append, append_cancel_left, tail-eq_of_cons-eq}
use nlboot.Base.{ℕ, String, ◌≡◌, refl, sym, ap, ◌∙◌, Bool, true, false, arith, if◌then◌else◌}
use nlboot.Json.{Value, Items, Fields, null, bool, num, str, arr, obj, nil, cons, end, field}
use nlboot.Json.Escape.{escape_char-injective, escape_char-ne-quote}
use nlboot.Json.Write.{put, put_items, put_fields, put_text, put_comma}
use nlboot.Json.Numbers.{
  number_start, number_text, numbers, numbers_items, numbers_fields, follows,
  append_number-injective, number_text-chars,
}

-- The code of the first character, the same one for all that a number can begin with.
kind : String → ℕ
unfolding number_start
kind empty = 0
kind (cons_char c s) = if number_start (code c) then 48 else code c

tag : Value → ℕ
tag null = 110
tag (bool true) = 116
tag (bool false) = 102
tag (num n) = 48
tag (str s) = 34
tag (arr xs) = 91
tag (obj fs) = 123

kind-put : (v : Value) (x : String) → numbers v ≡ true → kind (put v x) ≡ tag v
unfolding kind put tag numbers number_text
kind-put null x h = ap kind (cons-append "n" "ull" x)
kind-put (bool true) x h = ap kind (cons-append "t" "rue" x)
kind-put (bool false) x h = ap kind (cons-append "f" "alse" x)
kind-put (num (cons_char c s)) x h = ap kind (cons-append c s x) ∙ ground arith
kind-put (num empty) x h = cc
kind-put (str s) x h = refl
kind-put (arr xs) x h = refl
kind-put (obj fs) x h = refl

put_text-injective : (s t x y : String) → put_text s x ≡ put_text t y → (s ≡ t) × (x ≡ y)
unfolding put_text
put_text-injective empty empty x y h = (refl, tail-eq_of_cons-eq h)
put_text-injective empty (cons_char d t) x y h = absurd (escape_char-ne-quote d _ x (sym h))
put_text-injective (cons_char c s) empty x y h = absurd (escape_char-ne-quote c _ y h)
put_text-injective (cons_char c s) (cons_char d t) x y h =
    let (first, rest) = escape_char-injective c d _ _ h in
    let (texts, after) = put_text-injective s t x y rest in
    (ap (λ e. cons_char e s) first ∙ ap (cons_char d) texts, after)

same_tag :
    (v w : Value) (x y : String)
    → numbers v ≡ true
    → numbers w ≡ true
    → put v x ≡ put w y
    → tag v ≡ tag w
same_tag v w x y p q h = sym (kind-put v x p) ∙ ap kind h ∙ kind-put w y q

tag-ne-bracket : (v : Value) → tag v ≡ 93 → ⊥
unfolding tag
tag-ne-bracket null h = absurd (omega arith)
tag-ne-bracket (bool true) h = absurd (omega arith)
tag-ne-bracket (bool false) h = absurd (omega arith)
tag-ne-bracket (num n) h = absurd (omega arith)
tag-ne-bracket (str s) h = absurd (omega arith)
tag-ne-bracket (arr xs) h = absurd (omega arith)
tag-ne-bracket (obj fs) h = absurd (omega arith)

-- no value is written as the end of an array is
put-ne-bracket : (v : Value) (x y : String) → numbers v ≡ true → put v x ≡ cons_char "]" y → ⊥
unfolding kind tag
put-ne-bracket v x y p h = tag-ne-bracket v (sym (kind-put v x p) ∙ ap kind h)

bracket-ne-item :
    (first : Bool) (v : Value) (x y : String)
    → numbers v ≡ true
    → cons_char "]" x ≡ put_comma first (put v y)
    → ⊥
unfolding put_comma kind
bracket-ne-item true v x y p h = put-ne-bracket v y x p (sym h)
bracket-ne-item false v x y p h = absurd (omega (arith, ap kind h))

brace-ne-member :
    (first : Bool) (x y : String) → cons_char "}" x ≡ put_comma first (cons_char "\"" y) → ⊥
unfolding put_comma kind
brace-ne-member true x y h = absurd (omega (arith, ap kind h))
brace-ne-member false x y h = absurd (omega (arith, ap kind h))

follows-items : (vs : Items) (x : String) → follows (put_items false vs x) ≡ true
unfolding follows put_items put_comma
follows-items nil x = refl
follows-items (cons v vs) x = refl

follows-fields : (fs : Fields) (x : String) → follows (put_fields false fs x) ≡ true
unfolding follows put_fields put_comma
follows-fields end x = refl
follows-fields (field k v fs) x = refl

put_comma-injective : (first : Bool) (x y : String) → put_comma first x ≡ put_comma first y → x ≡ y
unfolding put_comma
put_comma-injective true x y h = h
put_comma-injective false x y h = tail-eq_of_cons-eq h

mutual
  unfolding put put_items put_fields numbers tag

  pub put-injective :
      (v w : Value) (x y : String)
      → numbers v ≡ true
      → numbers w ≡ true
      → follows x ≡ true
      → follows y ≡ true
      → put v x ≡ put w y
      → (v ≡ w) × (x ≡ y)
  put-injective null null x y p q f g h = (refl, append_cancel_left "null" x y h)
  put-injective (bool true) (bool true) x y p q f g h = (refl, append_cancel_left "true" x y h)
  put-injective (bool false) (bool false) x y p q f g h = (refl, append_cancel_left "false" x y h)
  put-injective (num m) (num n) x y p q f g h =
      let (same, after) =
        append_number-injective m n x y (number_text-chars m p) (number_text-chars n q) f g h in
      (ap num same, after)
  put-injective (str s) (str t) x y p q f g h =
      let (same, after) = put_text-injective s t x y (tail-eq_of_cons-eq h) in (ap str same, after)
  put-injective (arr vs) (arr ws) x y p q f g h =
      let (same, after) = put_items-injective true vs ws x y p q (tail-eq_of_cons-eq h) in
      (ap arr same, after)
  put-injective (obj fs) (obj gs) x y p q f g h =
      let (same, after) = put_fields-injective true fs gs x y p q (tail-eq_of_cons-eq h) in
      (ap obj same, after)
  put-injective v w x y p q f g h = absurd (grind (arith, same_tag v w x y p q h))

  put_items-injective :
      (first : Bool) (vs ws : Items) (x y : String)
      → numbers_items vs ≡ true
      → numbers_items ws ≡ true
      → put_items first vs x ≡ put_items first ws y
      → (vs ≡ ws) × (x ≡ y)
  put_items-injective first nil nil x y p q h = (refl, tail-eq_of_cons-eq h)
  put_items-injective first (cons v vs) (cons w ws) x y p q h =
      let (values, rest) =
        put-injective v w _ _ (ground arith) (ground arith) (follows-items vs x)
          (follows-items ws y) (put_comma-injective first _ _ h) in
      let (items, after) = put_items-injective false vs ws x y (ground arith) (ground arith) rest in
      (ap (λ u. cons u vs) values ∙ ap (cons w) items, after)
  put_items-injective first nil (cons w ws) x y p q h =
      absurd (bracket-ne-item first w x _ (ground arith) h)
  put_items-injective first (cons v vs) nil x y p q h =
      absurd (bracket-ne-item first v y _ (ground arith) (sym h))

  put_fields-injective :
      (first : Bool) (fs gs : Fields) (x y : String)
      → numbers_fields fs ≡ true
      → numbers_fields gs ≡ true
      → put_fields first fs x ≡ put_fields first gs y
      → (fs ≡ gs) × (x ≡ y)
  put_fields-injective first end end x y p q h = (refl, tail-eq_of_cons-eq h)
  put_fields-injective first (field j v fs) (field k w gs) x y p q h =
      let (keys, members) =
        put_text-injective j k _ _ (tail-eq_of_cons-eq (put_comma-injective first _ _ h)) in
      let (values, rest) =
        put-injective v w _ _ (ground arith) (ground arith) (follows-fields fs x)
          (follows-fields gs y) (tail-eq_of_cons-eq members) in
      let (others, after) =
        put_fields-injective false fs gs x y (ground arith) (ground arith) rest in
      (ap (λ i. field i v fs) keys ∙ ap (λ u. field k u fs) values ∙ ap (field k w) others, after)
  put_fields-injective first end (field k w gs) x y p q h = absurd (brace-ne-member first x _ h)
  put_fields-injective first (field j v fs) end x y p q h =
      absurd (brace-ne-member first y _ (sym h))
