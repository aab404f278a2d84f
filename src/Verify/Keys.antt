-- ===== src/Verify/Keys.antt =====
-- `load_trusted_keys` of verify.py: the keys of a document.
use nlboot.Base.{
  ℕ, String, ◌≡◌, refl, sym, ap, ◌∙◌, ◌↔◌, true, Option, none, some, List, [], ◌∷◌, ok, arith, Dict,
  lookup, insert, lookup-insert, ◌==◌, eq_iff, if◌then◌else◌, Yields, Yields-bind, Yields-or_raise,
  Yields-guard, Yields-ok, or_raise_ok, bind_ok, ok-injective, >>=-eq-ok, Bool-cases, inl, inr,
}
use mathlib.Core.Path.{subst}
use nlboot.Text.{non_empty, has_part}
use nlboot.Json.{Value, Items, Fields, str, arr, obj, nil, cons, get, get_or, text_of, array_of}
use nlboot.Time.{IsoFormat, now_or}
use nlboot.Verify.{
  TrustedKey, fips_ready_algorithm, filled_text, read_status, read_pem, read_reason, optional_time,
  from_dict, validate_lifecycle, load_keys, load_trusted_keys,
}
use nlboot.Verify.Lifecycle.{IsLive, validate_lifecycle_iff}

-- What every key says that was read from a document.
pub record IsKey (key : TrustedKey) : Type 0 where
  pub named : non_empty key.key_ref ≡ true
  pub algorithm : key.algorithm ≡ fips_ready_algorithm
  pub block : has_part key.public_key_pem "BEGIN PUBLIC KEY" ≡ true

filled_text_sound : (v : Value) {s : String} → filled_text v ≡ some s → non_empty s ≡ true
filled_text_sound (str s) h = ground arith
filled_text_sound _ h = cc

read_pem_sound :
    (v : Value) {s : String} → read_pem v ≡ some s → has_part s "BEGIN PUBLIC KEY" ≡ true
read_pem_sound (str s) h = ground arith
read_pem_sound _ h = cc

-- The last key of the list with that reference, or what was there before.
abbrev pub last_with : String → List TrustedKey → Option TrustedKey → Option TrustedKey
last_with ref [] found = found
last_with ref (key ∷ keys) found =
    last_with ref keys (if key.key_ref == ref then some key else found)

-- The dictionary after all keys of the list are stored under their references.
abbrev pub store_all : List TrustedKey → Dict TrustedKey → Dict TrustedKey
store_all [] loaded = loaded
store_all (key ∷ keys) loaded = store_all keys (insert key.key_ref key loaded)

lookup-store_all :
    (ref : String) (keys : List TrustedKey) (loaded : Dict TrustedKey)
    → lookup ref (store_all keys loaded) ≡ last_with ref keys (lookup ref loaded)
lookup-store_all ref [] loaded = refl
lookup-store_all ref (key ∷ keys) loaded =
    lookup-store_all ref keys (insert key.key_ref key loaded)
    ∙ ap (last_with ref keys) (lookup-insert key.key_ref ref key loaded)

module _ (iso : IsoFormat) where
  from_dict-IsKey : (fields : Fields) → Yields IsKey (from_dict iso fields)
  unfolding from_dict
  from_dict-IsKey fields = Yields-or_raise (filled_text (get fields "key_ref")) _ _ λ key_ref e1.
      Yields-or_raise (text_of (get fields "algorithm")) _ _ λ algorithm e2.
        Yields-guard (algorithm == fips_ready_algorithm) _ _ λ is_fips.
          Yields-or_raise (read_pem (get fields "public_key_pem")) _ _ λ pem e3.
            Yields-bind (read_status (get_or fields "status" (str "active"))) _ λ status e4.
              Yields-or_raise (read_reason (get fields "revocation_reason")) _ _ λ reason e5.
                Yields-bind (optional_time iso (get fields "not_before") "not_before") _ λ t1 e6.
                  Yields-bind (optional_time iso (get fields "not_after") "not_after") _ λ t2 e7.
                    Yields-bind (optional_time iso (get fields "revoked_at") "revoked_at") _
                      λ t3 e8. Yields-ok _ (record {
                        named = filled_text_sound (get fields "key_ref") e1;
                        algorithm = (eq_iff algorithm fips_ready_algorithm).0 is_fips;
                        block = read_pem_sound (get fields "public_key_pem") e3;
                      })

  -- The elements of the array are objects that hold these keys, and the keys are live.
  abbrev pub Holds : ℕ → Items → List TrustedKey → Type 0
  Holds current nil [] = Unit
  Holds current (cons (obj fields) items) (key ∷ keys) =
      (from_dict iso fields ≡ ok key) × IsLive key current × Holds current items keys
  Holds current _ _ = ⊥

  load_keys_sound :
      (now : Option ℕ) (clock : ℕ) (loaded : Dict TrustedKey) (items : Items) (d : Dict TrustedKey)
      → load_keys iso now clock loaded items ≡ ok d
      → (keys : List TrustedKey) × Holds (now_or now clock) items keys × (d ≡ store_all keys loaded)
  unfolding load_keys
  load_keys_sound now clock loaded nil d h = ([], tt, sym (ok-injective _ _ h))
  load_keys_sound now clock loaded (cons (obj fields) items) d h =
      let (key, read, rest) = >>=-eq-ok (from_dict iso fields) _ h in
      let (u, live, stored) = >>=-eq-ok (validate_lifecycle key now clock) _ rest in
      let (keys, held, same) =
        load_keys_sound now clock (insert key.key_ref key loaded) items d stored in
      (key ∷ keys, (read, (validate_lifecycle_iff key now clock).0 live, held), same)
  load_keys_sound now clock loaded (cons _ items) d h = cc

  load_keys_complete :
      (now : Option ℕ) (clock : ℕ) (loaded : Dict TrustedKey) (items : Items)
      (keys : List TrustedKey)
      → Holds (now_or now clock) items keys
      → load_keys iso now clock loaded items ≡ ok (store_all keys loaded)
  unfolding load_keys
  load_keys_complete now clock loaded nil [] h = refl
  load_keys_complete now clock loaded (cons (obj fields) items) (key ∷ keys) (read, live, held) =
      bind_ok _ read (
        bind_ok _ ((validate_lifecycle_iff key now clock).1 live)
          (load_keys_complete now clock (insert key.key_ref key loaded) items keys held))
  load_keys_complete now clock loaded _ _ h = absurd h

  array_of_sound : (v : Value) {items : Items} → array_of v ≡ some items → v ≡ arr items
  array_of_sound (arr items) h = ground arith
  array_of_sound _ h = cc

  -- What `load_trusted_keys` makes of a document, with the keys that the document lists.
  pub record Loads (fields : Fields) (current : ℕ) (d : Dict TrustedKey) : Type 0 where
    pub items : Items
    pub keys : List TrustedKey
    pub array : get fields "keys" ≡ arr items
    pub held : Holds current items keys
    pub stored : d ≡ store_all keys []

  load-Yields :
      (fields : Fields) (now : Option ℕ) (clock : ℕ)
      → Yields (Loads fields (now_or now clock)) (load_trusted_keys iso fields now clock)
  unfolding load_trusted_keys
  load-Yields fields now clock = Yields-or_raise (array_of (get fields "keys")) _ _ λ items e.
      record {
        at = λ d h.
            let (keys, held, same) = load_keys_sound now clock [] items d h in
            record {
              items = items;
              keys = keys;
              array = array_of_sound _ e;
              held = held;
              stored = same;
            };
      }

  load_complete :
      (fields : Fields) (now : Option ℕ) (clock : ℕ) (d : Dict TrustedKey)
      → Loads fields (now_or now clock) d
      → load_trusted_keys iso fields now clock ≡ ok d
  unfolding load_trusted_keys
  load_complete fields now clock d l =
      or_raise_ok _ _ (ap array_of l.array)
        (load_keys_complete now clock [] l.items l.keys l.held ∙ ap ok (sym l.stored))

  -- `load_trusted_keys` succeeds exactly if "keys" is an array of objects that all hold keys that
  -- are live; and it returns the dictionary that stores each key under its reference, in the order
  -- of the array.
  pub load_trusted_keys_iff :
      (fields : Fields) (now : Option ℕ) (clock : ℕ) (d : Dict TrustedKey)
      → (load_trusted_keys iso fields now clock ≡ ok d) ↔ Loads fields (now_or now clock) d
  load_trusted_keys_iff fields now clock d =
      ((load-Yields fields now clock).at d, load_complete fields now clock d)

  -- A key that is trusted under a reference.
  pub record IsTrusted (ref : String) (key : TrustedKey) (current : ℕ) : Type 0 where
    pub own : key.key_ref ≡ ref
    pub live : IsLive key current
    pub is_key : IsKey key

  last_with-IsTrusted :
      (ref : String) (current : ℕ) (items : Items) (keys : List TrustedKey)
      (found : Option TrustedKey)
      → ((key : TrustedKey) → found ≡ some key → IsTrusted ref key current)
      → Holds current items keys
      → (key : TrustedKey) → last_with ref keys found ≡ some key
      → IsTrusted ref key current
  last_with-IsTrusted ref current nil [] found before held key h = before key h
  last_with-IsTrusted ref current (cons (obj fields) items) (first ∷ keys) found before held key h =
      let (read, live, rest) = held in
      last_with-IsTrusted ref current items keys
        (if first.key_ref == ref then some first else found)
        (λ k e. elim (Bool-cases (first.key_ref == ref)) [
          | inl same ↦
              let it : first ≡ k = ground (arith, same, e) in
              subst (λ x. IsTrusted ref x current) it
                (record {
                  own = (eq_iff _ _).0 same;
                  live = live;
                  is_key = (from_dict-IsKey fields).at first read;
                })
          | inr other ↦ before k (ground (arith, other, e))
        ])
        rest key h
  last_with-IsTrusted ref current _ _ found before held key h = absurd held

  last_loaded :
      {fields : Fields} {current : ℕ} {d : Dict TrustedKey} (l : Loads fields current d)
      → (ref : String) → lookup ref d ≡ last_with ref l.keys none
  unfolding lookup
  last_loaded l ref = ap (lookup ref) l.stored ∙ lookup-store_all ref l.keys []

  -- Every key that `load_trusted_keys` returns under a reference has that reference, is live at
  -- the given time, or at the clock's, states the algorithm `rsa-pss-sha256` and has a public key
  -- block; and it is the last key of the document with that reference.
  pub load_trusted_keys-IsTrusted :
      (fields : Fields) (now : Option ℕ) (clock : ℕ) (d : Dict TrustedKey)
      → load_trusted_keys iso fields now clock ≡ ok d
      → (listed : Loads fields (now_or now clock) d) × ((ref : String)
          → lookup ref d ≡ last_with ref listed.keys none)
        × ((ref : String) (key : TrustedKey)
            → lookup ref d ≡ some key
            → IsTrusted ref key (now_or now clock))
  load_trusted_keys-IsTrusted fields now clock d h =
      let l = (load_trusted_keys_iff fields now clock d).0 h in
      (
        l,
        last_loaded l,
        λ ref key found.
            last_with-IsTrusted ref (now_or now clock) l.items l.keys none (λ k e. cc) l.held key
              (sym (last_loaded l ref) ∙ found),
      )
