-- ===== src/Json/Dump.antt =====
-- `json.dumps(value, sort_keys=True, separators=(",", ":"))`, with `ensure_ascii` as it is by
-- default. A dictionary's members are written first and sorted by key then.
use Prim.Native.Nat.{◌/◌, ◌%◌, ◌-◌}
use Prim.Native.Char.{Char, code}
use Prim.Native.String.{[] as empty, ◌∷◌ as cons_char, ◌++◌ as append, compare}
use text.Mathlib.Text.{is_le}
use nlboot.Base.{ℕ, ◌+◌, String, true, false, ◌&&◌, List, [], ◌∷◌, ltb, leb, eqb, if◌then◌else◌}
use nlboot.Hex.{hex_digit}
use nlboot.Json.{Value, Items, Fields, null, bool, num, str, arr, obj, nil, cons, end, field}

-- `\uXXXX` for a number below 2^16
abbrev pub unicode_escape : ℕ → String
unicode_escape n = append "\\u" (
    cons_char (hex_digit (n / 4096 % 16)) (
      cons_char (hex_digit (n / 256 % 16))
        (cons_char (hex_digit (n / 16 % 16)) (cons_char (hex_digit (n % 16)) empty))))

-- A character as it stands between quotes; above 2^16 as a surrogate pair.
unfoldable pub escape_char : Char → String
unfolding hex_digit
escape_char c =
    let n = code c in
    if eqb n 34
    then "\\\""
    else if eqb n 92
    then "\\\\"
    else if eqb n 10
    then "\\n"
    else if eqb n 13
    then "\\r"
    else if eqb n 9
    then "\\t"
    else if eqb n 12
    then "\\f"
    else if eqb n 8
    then "\\b"
    else if leb 32 n && leb n 126
    then cons_char c empty
    else if ltb n 65536
    then unicode_escape n
    else append (unicode_escape (55296 + (n - 65536) / 1024 % 1024))
        (unicode_escape (56320 + (n - 65536) % 1024))

unfoldable pub escape : String → String
unfolding escape_char
escape empty = empty
escape (cons_char c s) = append (escape_char c) (escape s)

unfoldable pub quote : String → String
unfolding escape
quote s = cons_char "\"" (append (escape s) "\"")

-- `,` between the parts
unfoldable pub join : List String → String
join [] = empty
join (p ∷ []) = p
join (p ∷ q ∷ ps) = append p (cons_char "," (join (q ∷ ps)))

-- Members of an object: a key and the text of its value.
abbrev pub Member : Type 0
Member = String × String

unfoldable pub insert_member : Member → List Member → List Member
insert_member m [] = m ∷ []
insert_member m (n ∷ ns) = if is_le (compare m.0 n.0) then m ∷ n ∷ ns else n ∷ insert_member m ns

unfoldable pub sort_members : List Member → List Member
unfolding insert_member
sort_members [] = []
sort_members (m ∷ ms) = insert_member m (sort_members ms)

unfoldable pub show_members : List Member → List String
show_members [] = []
show_members ((k, v) ∷ ms) = append (quote k) (cons_char ":" v) ∷ show_members ms

unfoldable mutual
  unfolding quote join sort_members show_members

  pub dumps : Value → String
  dumps null = "null"
  dumps (bool true) = "true"
  dumps (bool false) = "false"
  dumps (num n) = n
  dumps (str s) = quote s
  dumps (arr xs) = append "[" (append (join (dump_items xs)) "]")
  dumps (obj fs) = append "{" (append (join (show_members (sort_members (dump_members fs)))) "}")

  pub dump_items : Items → List String
  dump_items nil = []
  dump_items (cons x xs) = dumps x ∷ dump_items xs

  pub dump_members : Fields → List Member
  dump_members end = []
  dump_members (field k v fs) = (k, dumps v) ∷ dump_members fs
