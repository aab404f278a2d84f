-- ===== src/Json/Pretty.antt =====
-- `json.dumps(value, indent=2, sort_keys=True)`: every member and every element on a line of its own,
-- two spaces further in than the bracket's line.
use Prim.Native.String.{[] as empty, ◌∷◌ as cons_char, ◌++◌ as append}
use nlboot.Base.{ℕ, zero, suc, ◌+◌, String, List, [], ◌∷◌}
use nlboot.Json.{Value, Items, Fields, arr, obj, nil, cons, end, field}
use nlboot.Json.Dump.{Member, quote, join, sort_members, dumps}

abbrev spaces : ℕ → String
spaces zero = empty
spaces (suc n) = cons_char " " (spaces n)

-- The line break before a line of that depth.
abbrev line : ℕ → String
line depth = cons_char "\n" (spaces (depth + depth))

abbrev on_lines : ℕ → List String → List String
on_lines depth [] = []
on_lines depth (part ∷ parts) = append (line depth) part ∷ on_lines depth parts

abbrev show_pretty : List Member → List String
show_pretty [] = []
show_pretty ((k, v) ∷ ms) = append (quote k) (append ": " v) ∷ show_pretty ms

-- The parts between brackets; `json` writes nothing between the brackets of an empty value.
abbrev enclose : String → String → ℕ → List String → String
enclose opening closing depth [] = append opening closing
enclose opening closing depth (part ∷ parts) =
    append opening
      (append (join (on_lines (suc depth) (part ∷ parts))) (append (line depth) closing))

unfoldable mutual
  pub pretty : ℕ → Value → String
  pretty depth (arr items) = enclose "[" "]" depth (pretty_items (suc depth) items)
  pretty depth (obj fields) =
      enclose "{" "}" depth (show_pretty (sort_members (pretty_members (suc depth) fields)))
  pretty depth value = dumps value

  pub pretty_items : ℕ → Items → List String
  pretty_items depth nil = []
  pretty_items depth (cons value items) = pretty depth value ∷ pretty_items depth items

  pub pretty_members : ℕ → Fields → List Member
  pretty_members depth end = []
  pretty_members depth (field key value rest) =
      (key, pretty depth value) ∷ pretty_members depth rest
