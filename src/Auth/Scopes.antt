-- ===== src/Auth/Scopes.antt =====
-- Which scopes the claims of a token list.
use aws_mcp_gateway.Base.{
  set_add_all, ◌≡◌, ◌≢◌, ◌↔◌, ◌⊎◌, sym, ap, inl, inr, String, List, [], Memᴰ, includes, set_add_all,
  set_add_all-mem_iff, string_eq, split, split-mem_iff, non_empty-mem_iff, IsPiece, is_space,
}
use mathlib.Core.List.Memᴰ
use aws_mcp_gateway.Js.{
  Value, undefined, null, boolean, number, text, array, object, Items, nil, item, Fields, get,
  texts,
}
use aws_mcp_gateway.Auth.Claims.{string_scopes, array_scopes, extract_scopes}

-- A text is among the items of an array.
abbrev pub HasText : String → Items → Type 0
HasText s nil = ⊥
HasText s (item v vs) = (v ≡ text s) ⊎ HasText s vs

-- A word of a text: not empty, without white space in it, and with white space or an end of the text on
-- either side.
abbrev pub IsWordOf : String → Value → Type 0
IsWordOf s (text t) = IsPiece is_space s t × (s ≢ "")
IsWordOf s v = ⊥

-- An item of an array, a text that is not empty.
abbrev pub IsItemOf : String → Value → Type 0
IsItemOf s (array vs) = HasText s vs × (s ≢ "")
IsItemOf s v = ⊥

text_of : String → Value → String
text_of d (text s) = s
text_of d v = d

text-injective : (s t : String) → text s ≡ text t → s ≡ t
unfolding text_of
text-injective s t e = ap (text_of "") e

-- an item that is no text
other_iff :
    (s : String) (v : Value) (vs : Items)
    → (v ≢ text s)
    → Memᴰ s (texts vs) ↔ HasText s vs
    → Memᴰ s (texts vs) ↔ ((v ≡ text s) ⊎ HasText s vs)
other_iff s v vs other (to, from) =
    (λ m. inr (to m), λ h. elim h [ inl e ↦ absurd (other e) | inr r ↦ from r ])

texts-mem_iff : (s : String) (vs : Items) → Memᴰ s (texts vs) ↔ HasText s vs
unfolding texts
texts-mem_iff s nil = (λ m. absurd (Memᴰ.not-nil m), λ h. absurd h)
texts-mem_iff s (item (text t) vs) =
    let (to, from) = texts-mem_iff s vs in
    (
      λ m. elim m [ Memᴰ.head e ↦ inl (ap text (sym e)) | Memᴰ.tail n ↦ inr (to n) ],
      λ h. elim h [ inl e ↦ Memᴰ.head (sym (text-injective t s e)) | inr r ↦ Memᴰ.tail (from r) ],
    )
texts-mem_iff s (item undefined vs) = other_iff s undefined vs (λ e. cc e) (texts-mem_iff s vs)
texts-mem_iff s (item null vs) = other_iff s null vs (λ e. cc e) (texts-mem_iff s vs)
texts-mem_iff s (item (boolean b) vs) = other_iff s (boolean b) vs (λ e. cc e) (texts-mem_iff s vs)
texts-mem_iff s (item (number n) vs) = other_iff s (number n) vs (λ e. cc e) (texts-mem_iff s vs)
texts-mem_iff s (item (array xs) vs) = other_iff s (array xs) vs (λ e. cc e) (texts-mem_iff s vs)
texts-mem_iff s (item (object fs) vs) = other_iff s (object fs) vs (λ e. cc e) (texts-mem_iff s vs)

no_scopes : {s : String} → Memᴰ s [] ↔ ⊥
no_scopes = (λ m. absurd (Memᴰ.not-nil m), λ h. absurd h)

words_iff : (s : String) (v : Value) → Memᴰ s (string_scopes v) ↔ IsWordOf s v
unfolding string_scopes
words_iff s (text t) =
    let (kept, keep) = non_empty-mem_iff s (split is_space t) in
    let (piece, part) = split-mem_iff is_space s t in
    (λ m. let (n, full) = kept m in (piece n, full), λ (p, full). keep (part p, full))
words_iff s undefined = no_scopes
words_iff s null = no_scopes
words_iff s (boolean b) = no_scopes
words_iff s (number n) = no_scopes
words_iff s (array vs) = no_scopes
words_iff s (object fs) = no_scopes

items_iff : (s : String) (v : Value) → Memᴰ s (array_scopes v) ↔ IsItemOf s v
unfolding array_scopes
items_iff s (array vs) =
    let (kept, keep) = non_empty-mem_iff s (texts vs) in
    let (to, from) = texts-mem_iff s vs in
    (λ m. let (n, full) = kept m in (to n, full), λ (h, full). keep (from h, full))
items_iff s undefined = no_scopes
items_iff s null = no_scopes
items_iff s (boolean b) = no_scopes
items_iff s (number n) = no_scopes
items_iff s (text t) = no_scopes
items_iff s (object fs) = no_scopes

-- the union of three lists of scopes
union_iff :
    (xs ys zs : List String) (s : String)
    → Memᴰ s (set_add_all (set_add_all (set_add_all [] xs) ys) zs)
      ↔ (Memᴰ s xs ⊎ Memᴰ s ys ⊎ Memᴰ s zs)
unfolding includes
union_iff xs ys zs s = (
  λ m. elim ((set_add_all-mem_iff _ _ s).0 m) [
    | inl n ↦ elim ((set_add_all-mem_iff _ _ s).0 n) [
      | inl o ↦ elim ((set_add_all-mem_iff [] _ s).0 o) [
        | inl nothing ↦ absurd (Memᴰ.not-nil nothing)
        | inr listed ↦ inl listed
      ]
      | inr listed ↦ inr (inl listed)
    ]
    | inr listed ↦ inr (inr listed)
  ],
  λ h. (set_add_all-mem_iff _ _ s).1 (elim h [
    | inl listed ↦
        inl ((set_add_all-mem_iff _ _ s).1 (inl ((set_add_all-mem_iff [] _ s).1 (inr listed))))
    | inr rest ↦ elim rest [
      | inl listed ↦ inl ((set_add_all-mem_iff _ _ s).1 (inr listed))
      | inr listed ↦ inr listed
    ]
  ]),
)

-- A scope is extracted exactly when it is not empty and the claims list it: as a word of the text `scope`, between
-- white space or the ends of the text, or as a text among the items of the array `scp` or `permissions`.
pub extract_scopes_iff :
    (payload : Fields) (s : String)
    → Memᴰ s (extract_scopes payload) ↔ (
        IsWordOf s (get "scope" payload)
        ⊎ IsItemOf s (get "scp" payload)
        ⊎ IsItemOf s (get "permissions" payload))
unfolding extract_scopes
extract_scopes_iff payload s =
    let (to, from) =
      union_iff (string_scopes (get "scope" payload)) (array_scopes (get "scp" payload))
        (array_scopes (get "permissions" payload)) s in
    let (word, words) = words_iff s (get "scope" payload) in
    let (scp, scps) = items_iff s (get "scp" payload) in
    let (permission, permissions) = items_iff s (get "permissions" payload) in
    (
      λ m. elim (to m) [
        | inl x ↦ inl (word x)
        | inr y ↦ elim y [ inl x ↦ inr (inl (scp x)) | inr x ↦ inr (inr (permission x)) ]
      ],
      λ h. elim h [
        | inl x ↦ from (inl (words x))
        | inr y ↦ elim y [
          | inl x ↦ from (inr (inl (scps x)))
          | inr x ↦ from (inr (inr (permissions x)))
        ]
      ],
    )
