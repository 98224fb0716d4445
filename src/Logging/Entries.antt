-- ===== src/Logging/Entries.antt =====
-- What the loop over an event leaves under a name.
use aws_mcp_gateway.Base.{
  ◌≡◌, refl, sym, subst, ◌∙◌, inl, inr, true, false, String, ◌==◌, string_eq, string_eq_iff,
  Bool-cases, if◌then◌else◌,
}
use aws_mcp_gateway.Js.{Value, undefined, Fields, end, field, get}
use aws_mcp_gateway.Logging.{
  is_forbidden_key, sanitize_value, set_field, set_given, add_entry, add_entries,
}

not_back : (s t : String) → (s == t) ≡ false → (t == s) ≡ false
not_back s t h = elim (Bool-cases (t == s)) [
  | inl same ↦ absurd (cc (h, (string_eq_iff s t).1 (sym ((string_eq_iff t s).0 same))))
  | inr other ↦ other
]

get-set_field :
    (key k : String) (v : Value) (fs : Fields)
    → get key (set_field k v fs) ≡ (if k == key then v else get key fs)
unfolding get set_field
get-set_field key k v end = refl
get-set_field key k v (field l w fs) = elim (Bool-cases (l == k)) [
  | inl same ↦
      let e = (string_eq_iff l k).0 same in
      elim (Bool-cases (k == key)) [
        | inl here ↦ rw (same, e, here)
        | inr there ↦ rw (same, e, there)
      ]
  | inr other ↦ elim (Bool-cases (l == key)) [
    | inl here ↦ rw (other, here, ← (string_eq_iff l key).0 here, not_back l k other)
    | inr there ↦ rw (other, there) (get-set_field key k v fs)
  ]
]

-- a value that is written where it is defined
abbrev or_kept : Value → Value → Value
or_kept undefined kept = kept
or_kept value kept = value

get-set_given :
    (key k : String) (v : Value) (fs : Fields)
    → get key (set_given k v fs) ≡ (if k == key then or_kept v (get key fs) else get key fs)
unfolding set_given
get-set_given key k undefined fs = elim (Bool-cases (k == key)) [
  | inl here ↦ rw here
  | inr there ↦ rw there
]
get-set_given key k v fs = get-set_field key k v fs

get-add_entry :
    (key k : String) (v : Value) (fs : Fields)
    → get key (add_entry k v fs) ≡ (
        if is_forbidden_key k
        then get key fs
        else if k == key
        then or_kept (sanitize_value v) (get key fs)
        else get key fs)
unfolding add_entry
get-add_entry key k v fs = elim (Bool-cases (is_forbidden_key k)) [
  | inl forbidden ↦ rw forbidden
  | inr allowed ↦ rw allowed (get-set_given key k (sanitize_value v) fs)
]

-- an entry of another name is none of this name's
get-add_entry_ne :
    (key k : String) (v : Value) (fs : Fields)
    → (k == key) ≡ false
    → get key (add_entry k v fs) ≡ get key fs
get-add_entry_ne key k v fs other = elim (Bool-cases (is_forbidden_key k)) [
  | inl forbidden ↦ rw (get-add_entry, forbidden)
  | inr allowed ↦ rw (get-add_entry, allowed, other)
]

pub forbidden-add_entries :
    (key : String) (event sanitized : Fields)
    → is_forbidden_key key ≡ true
    → get key sanitized ≡ undefined
    → get key (add_entries sanitized event) ≡ undefined
unfolding add_entries
forbidden-add_entries key end sanitized forbidden h = h
forbidden-add_entries key (field k v rest) sanitized forbidden h =
    forbidden-add_entries key rest (add_entry k v sanitized) forbidden
      (elim (Bool-cases (k == key)) [
        | inl here ↦ rw (get-add_entry, (string_eq_iff k key).0 here, forbidden) h
        | inr there ↦ get-add_entry_ne key k v sanitized there ∙ h
      ])

-- No property of the event has the name.
abbrev HasNo : String → Fields → Type 0
HasNo key end = Unit
HasNo key (field k v rest) = ((k == key) ≡ false) × HasNo key rest

-- The properties of an event have different names, as those of every object have.
abbrev pub AreDistinct : Fields → Type 0
AreDistinct end = Unit
AreDistinct (field k v rest) = HasNo k rest × AreDistinct rest

absent-add_entries :
    (key : String) (event sanitized : Fields)
    → HasNo key event
    → get key (add_entries sanitized event) ≡ get key sanitized
unfolding add_entries
absent-add_entries key end sanitized h = refl
absent-add_entries key (field k v rest) sanitized (other, h) =
    absent-add_entries key rest (add_entry k v sanitized) h
    ∙ get-add_entry_ne key k v sanitized other

or_kept-undefined : (v : Value) → or_kept v undefined ≡ v
or_kept-undefined undefined = refl
or_kept-undefined v = refl

pub allowed-add_entries :
    (key : String) (event sanitized : Fields)
    → AreDistinct event
    → is_forbidden_key key ≡ false
    → get key sanitized ≡ undefined
    → get key (add_entries sanitized event) ≡ sanitize_value (get key event)
unfolding add_entries get sanitize_value
allowed-add_entries key end sanitized d allowed h = h
allowed-add_entries key (field k v rest) sanitized (new, d) allowed h =
    elim (Bool-cases (k == key)) [
      | inl here ↦
          let e = (string_eq_iff k key).0 here in
          rw here (
            absent-add_entries key rest (add_entry k v sanitized) (subst (λ x. HasNo x rest) e new)
            ∙ rw (get-add_entry, here, e, allowed, h) (or_kept-undefined (sanitize_value v)))
      | inr there ↦ rw there (
          allowed-add_entries key rest (add_entry k v sanitized) d allowed
            (get-add_entry_ne key k v sanitized there ∙ h))
    ]
