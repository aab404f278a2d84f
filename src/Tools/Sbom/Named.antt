-- ===== src/Tools/Sbom/Named.antt =====
-- cargo_metadata_to_spdx.py: the name and the version of a package, by the members of its object.
use nlboot.Base.{
  String, ◌≡◌, refl, sym, ap, ◌∙◌, ◌↔◌, Option, none, some, ok, or_raise, ok-injective, >>=-eq-ok,
  bind_ok,
}
use nlboot.Json.{Value, Fields, str, obj, get_or}
use nlboot.Json.Paths.{member, or_default, get_or-member}
use nlboot.Tools.Sbom.Values.{Raised, subscript, replaceable, key_error}
use nlboot.Tools.Sbom.{name_and_version}

-- The version is the member's text, or "UNKNOWN" where there is no such member.
abbrev pub IsVersion : Option Value → String → Type 0
IsVersion none version = version ≡ "UNKNOWN"
IsVersion (some v) version = v ≡ str version

-- The object states the name and the version.
abbrev pub States : Fields → String → String → Type 0
States fields name version =
    (member "name" fields ≡ some (str name)) × IsVersion (member "version" fields) version

pub or_raise_sound :
    {A : Type 0} (o : Option A) (e : Raised) (a : A) → or_raise o e ≡ ok a → o ≡ some a
or_raise_sound none e a h = cc
or_raise_sound (some b) e a h = ap some (ok-injective b a h)

replaceable_sound : (v : Value) (text : String) → replaceable v ≡ ok text → v ≡ str text
replaceable_sound (str s) text h = ap str (ok-injective s text h)
replaceable_sound _ text h = cc

IsVersion-of_default :
    (o : Option Value) (version : String)
    → or_default o (str "UNKNOWN") ≡ str version
    → IsVersion o version
IsVersion-of_default none version h = cc
IsVersion-of_default (some v) version h = h

or_default-of_IsVersion :
    (o : Option Value) (version : String)
    → IsVersion o version
    → or_default o (str "UNKNOWN") ≡ str version
or_default-of_IsVersion none version h = ap str (sym h)
or_default-of_IsVersion (some v) version h = h

-- `name_and_version` returns exactly what the object states.
pub name_and_version_iff :
    (fields : Fields) (name version : String)
    → (name_and_version (obj fields) ≡ ok (name, version)) ↔ States fields name version
unfolding name_and_version
name_and_version_iff fields name version = (
  λ h.
      let (v, e, rest) = >>=-eq-ok (subscript (obj fields) "name") _ h in
      let (n, f, others) = >>=-eq-ok (replaceable v) _ rest in
      let (w, g, last) =
        >>=-eq-ok (replaceable (get_or fields "version" (str "UNKNOWN"))) _ others in
      let pairs = ok-injective (n, w) (name, version) last in
      let read = sym (get_or-member fields "version" (str "UNKNOWN")) ∙ replaceable_sound _ w g in
      (
        or_raise_sound (member "name" fields) _ v e
            ∙ ap some (replaceable_sound v n f ∙ ap (λ p. str p.0) pairs),
        IsVersion-of_default (member "version" fields) version (read ∙ ap (λ p. str p.1) pairs),
      ),
  λ (named, versioned).
      let read =
        get_or-member fields "version" (str "UNKNOWN")
        ∙ or_default-of_IsVersion (member "version" fields) version versioned in
      bind_ok _ (ap (λ o. or_raise o (key_error "name")) named)
        (bind_ok _ (ap replaceable read) refl),
)
