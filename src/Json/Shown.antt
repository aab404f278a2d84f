-- ===== src/Json/Shown.antt =====
-- The text of `json.dumps` with sorted keys is what `put` writes for the sorted value.
use Prim.Native.Char.{Char}
use Prim.Native.String.{[] as empty, ◌∷◌ as cons_char, ◌++◌ as append, compare}
use text.Mathlib.Text.{is_le}
use text.Mathlib.TextLemmas.{nil-append, cons-append, append_assoc}
use nlboot.Base.{String, ◌≡◌, refl, sym, ap, ◌∙◌, true, false, List, [], ◌∷◌, Bool-cases, inl, inr}
use nlboot.Json.{Value, Items, Fields, null, bool, num, str, arr, obj, nil, cons, end, field}
use nlboot.Json.Dump.{
  Member, quote, join, insert_member, sort_members, show_members, dumps, dump_items, dump_members,
}
use nlboot.Json.Write.{
  put, put_items, put_fields, put_text, put_comma, insert_field, sorted, sorted_items,
  sorted_fields, append-quote,
}

-- The text is what `put` writes for the value.
abbrev Writes : String → Value → Type 0
Writes text v = (x : String) → append text x ≡ put v x

-- The members are the texts of the object's, one by one.
Shows : List Member → Fields → Type 0
Shows [] end = Unit
Shows (m ∷ ms) (field k v fs) = (m.0 ≡ k) × (Writes m.1 v × Shows ms fs)
Shows _ _ = ⊥

insert_member-Shows :
    (k text : String) (v : Value) (ms : List Member) (fs : Fields)
    → Writes text v
    → Shows ms fs
    → Shows (insert_member (k, text) ms) (insert_field k v fs)
unfolding insert_member insert_field Shows
insert_member-Shows k text v [] end w s = (refl, (w, s))
insert_member-Shows k text v (m ∷ ms) (field j u fs) w (e, (us, s)) =
    elim (Bool-cases (is_le (compare k m.0))) [
      | inl h ↦
          let g : is_le (compare k j) ≡ true = rw (sym e) h in rw (h, g) (refl, (w, (e, (us, s))))
      | inr h ↦
          let g : is_le (compare k j) ≡ false = rw (sym e) h in
          rw (h, g) (e, (us, insert_member-Shows k text v ms fs w s))
    ]
insert_member-Shows k text v [] (field j u fs) w s = absurd s
insert_member-Shows k text v (m ∷ ms) end w s = absurd s

append-member :
    (m : Member) (k : String) (v : Value) (x : String)
    → m.0 ≡ k
    → Writes m.1 v
    → append (append (quote m.0) (cons_char ":" m.1)) x
      ≡ cons_char "\"" (put_text k (cons_char ":" (put v x)))
append-member m k v x e w =
    append_assoc (quote m.0) _ x
    ∙ append-quote m.0 _
    ∙ ap (λ y. cons_char "\"" (put_text m.0 y)) (cons-append ":" m.1 x ∙ ap (cons_char ":") (w x))
    ∙ ap (λ j. cons_char "\"" (put_text j (cons_char ":" (put v x)))) e

append-join :
    (p q : String) (ps : List String) (x : String)
    → append (join (p ∷ q ∷ ps)) x ≡ append p (cons_char "," (append (join (q ∷ ps)) x))
unfolding join
append-join p q ps x = append_assoc p _ x ∙ ap (append p) (cons-append "," _ x)

join-show_members :
    (ms : List Member) (fs : Fields) (x : String)
    → Shows ms fs
    → append (join (show_members ms)) (cons_char "}" x) ≡ put_fields true fs x
unfolding join show_members put_fields Shows put_comma
join-show_members [] end x s = nil-append _
join-show_members (m ∷ []) (field k v end) x (e, (w, s)) = append-member m k v _ e w
join-show_members (m ∷ n ∷ ms) (field k v (field j u fs)) x (e, (w, s)) =
    append-join _ _ (show_members ms) _
    ∙ append-member m k v _ e w
    ∙ ap (λ y. cons_char "\"" (put_text k (cons_char ":" (put v (cons_char "," y)))))
        (join-show_members (n ∷ ms) (field j u fs) x s)
join-show_members (m ∷ []) (field k v (field j u fs)) x (_, (_, s)) = absurd s
join-show_members (m ∷ n ∷ ms) (field k v end) x (_, (_, s)) = absurd s
join-show_members [] (field k v fs) x s = absurd s
join-show_members (m ∷ []) end x s = absurd s
join-show_members (m ∷ n ∷ ms) end x s = absurd s

-- One by one, the texts are what `put` writes for the elements.
ShowsItems : List String → Items → Type 0
ShowsItems [] nil = Unit
ShowsItems (p ∷ ps) (cons v vs) = Writes p v × ShowsItems ps vs
ShowsItems _ _ = ⊥

join-items :
    (ps : List String) (vs : Items) (x : String)
    → ShowsItems ps vs
    → append (join ps) (cons_char "]" x) ≡ put_items true vs x
unfolding join put_items ShowsItems put_comma
join-items [] nil x s = nil-append _
join-items (p ∷ []) (cons v nil) x (w, s) = w _
join-items (p ∷ q ∷ ps) (cons v (cons u vs)) x (w, s) =
    append-join p q ps _
    ∙ w _
    ∙ ap (λ y. put v (cons_char "," y)) (join-items (q ∷ ps) (cons u vs) x s)
join-items (p ∷ []) (cons v (cons u vs)) x (_, s) = absurd s
join-items (p ∷ q ∷ ps) (cons v nil) x (_, s) = absurd s
join-items [] (cons v vs) x s = absurd s
join-items (p ∷ []) nil x s = absurd s
join-items (p ∷ q ∷ ps) nil x s = absurd s

enclosed :
    (opening closing text x : String)
    → append (append opening (append text closing)) x
      ≡ append opening (append text (append closing x))
enclosed opening closing text x =
    append_assoc opening _ x ∙ ap (append opening) (append_assoc text closing x)

one : (c : Char) (x : String) → append (cons_char c empty) x ≡ cons_char c x
one c x = cons-append c empty x ∙ ap (cons_char c) (nil-append x)

-- The text of a value, with what follows it, is what `put` writes for the sorted value.
pub append-dumps : (v : Value) → Writes (dumps v) (sorted v)
unfolding dumps sorted put Shows ShowsItems
append-dumps v =
    elim v
      as (λ v. Writes (dumps v) (sorted v)) (λ fs.
        Shows (sort_members (dump_members fs)) (sorted_fields fs)) (λ xs.
          ShowsItems (dump_items xs) (sorted_items xs)) [
            | null ↦ λ x. refl
            | bool b ↦ elim b as (λ b. Writes (dumps (bool b)) (sorted (bool b))) [
              | true ↦ λ x. refl
              | false ↦ λ x. refl
            ]
            | num n ↦ λ x. refl
            | str s ↦ append-quote s
            | arr (xs → ih) ↦ λ x.
                enclosed "[" "]" _ x
                ∙ one "[" _
                ∙ ap (λ y. cons_char "[" (append (join (dump_items xs)) y)) (one "]" x)
                ∙ ap (cons_char "[") (join-items _ _ x ih)
            | obj (fs → ih) ↦ λ x.
                enclosed "{" "}" _ x
                ∙ one "{" _
                ∙ ap
                    (λ y.
                      cons_char "{"
                        (append (join (show_members (sort_members (dump_members fs)))) y))
                    (one "}" x)
                ∙ ap (cons_char "{") (join-show_members _ _ x ih)
            | end ↦ tt
            | field k (w → ih) (fs → ihs) ↦ insert_member-Shows k _ _ _ _ ih ihs
            | nil ↦ tt
            | cons (w → ih) (xs → ihs) ↦ (ih, ihs)
          ]
