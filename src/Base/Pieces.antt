-- ===== src/Base/Pieces.antt =====
-- The pieces that `split` makes of a text, described by where they stand in it.
use Prim.Native.Nat.{ℕ}
use Prim.Native.Char.{Char, code}
use Prim.Native.String.{String, [], ◌∷◌}
use mathlib.Core.Bool.{Bool, true, false}
use mathlib.Core.Path.{◌≡◌, refl, sym}
use mathlib.Core.Logic.{◌≢◌, ◌↔◌, inl, inr}
use mathlib.Core.List.Memᴰ
use mathlib.Core.List.{List, Memᴰ}
use text.Mathlib.TextLemmas.{nil-append, cons-append, cons≢nil}
use aws_mcp_gateway.Base.Tests.{Bool-cases}
use aws_mcp_gateway.Base.Strings.{◌<>◌, split, non_empty}

module _ (sep : ℕ → Bool) where
  -- A text without a separator.
  abbrev pub IsClear : String → Type 0
  IsClear [] = Unit
  IsClear (c ∷ s) = (sep (code c) ≡ false) × IsClear s

  -- A text that is empty or starts with a separator.
  abbrev pub StartsApart : String → Type 0
  StartsApart [] = Unit
  StartsApart (c ∷ s) = sep (code c) ≡ true

  -- A text that is empty or ends with a separator.
  abbrev pub EndsApart : String → Type 0
  EndsApart [] = Unit
  EndsApart (c ∷ []) = sep (code c) ≡ true
  EndsApart (c ∷ d ∷ s) = EndsApart (d ∷ s)

  -- A text starts with a piece, up to its first separator or its end.
  abbrev pub IsFirstPiece : String → String → Type 0
  IsFirstPiece s t = (w : String) × ((t ≡ s <> w) × (IsClear s × StartsApart w))

  -- A piece stands in a text between separators or its ends.
  abbrev pub IsPiece : String → String → Type 0
  IsPiece s t =
      (u : String) × ((w : String) × ((t ≡ u <> (s <> w))
          × (EndsApart u × (IsClear s × StartsApart w))))

  -- A piece that is not the first.
  abbrev IsLaterPiece : String → String → Type 0
  IsLaterPiece s t =
      (c : Char) × ((u : String) × ((w : String) × ((t ≡ (c ∷ u) <> (s <> w))
            × (EndsApart (c ∷ u) × (IsClear s × StartsApart w)))))

  -- what a split comes to
  abbrev IsSplit : String → List String → Type 0
  IsSplit t parts =
      (p : String) × ((ps : List String) × ((parts ≡ List.◌∷◌ p ps)
          × (IsFirstPiece p t × ((s : String) → Memᴰ s ps → IsLaterPiece s t))))

  later_cons : (c : Char) (s t : String) → IsLaterPiece s t → IsLaterPiece s (c ∷ t)
  later_cons c s t (d, (u, (w, (e, rest)))) =
      (c, (d ∷ u, (w, (rw e (sym (cons-append c (d ∷ u) (s <> w))), rest))))

  first_later :
      (c : Char) (s t : String) → sep (code c) ≡ true → IsFirstPiece s t → IsLaterPiece s (c ∷ t)
  first_later c s t h (w, (e, rest)) =
      (c, ([], (w, (rw (e, cons-append c [] (s <> w), nil-append (s <> w)) refl, (h, rest)))))

  split-IsSplit : (t : String) → IsSplit t (split sep t)
  unfolding split
  split-IsSplit [] =
      ([], (List.[], (refl, (([], (refl, (tt, tt))), λ s m. absurd (Memᴰ.not-nil m)))))
  split-IsSplit (c ∷ t) =
      let (p, (ps, (e, (first, later)))) = split-IsSplit t in
      elim (Bool-cases (sep (code c))) [
        | inl h ↦
            rw (h, e)
              (
                [],
                (
                  List.◌∷◌ p ps,
                  (
                    refl,
                    (
                      (c ∷ t, (sym (nil-append _), (tt, h))),
                      λ s m. elim m [
                        | Memᴰ.head same ↦ first_later c s t h (rw same first)
                        | Memᴰ.tail n ↦ later_cons c s t (later s n)
                      ],
                    ),
                  ),
                ),
              )
        | inr h ↦
            let (w, (at, (clear, apart))) = first in
            rw (h, e)
              (
                c ∷ p,
                (
                  ps,
                  (
                    refl,
                    (
                      (w, (rw at (sym (cons-append c p w)), ((h, clear), apart))),
                      λ s m. later_cons c s t (later s m),
                    ),
                  ),
                ),
              )
      ]

  -- The first part of a split is the first piece.
  pub split-first :
      (t : String)
      → (p : String) × ((ps : List String) × ((split sep t ≡ List.◌∷◌ p ps) × IsFirstPiece p t))
  split-first t = let (p, (ps, (e, (first, _)))) = split-IsSplit t in (p, (ps, (e, first)))

  split-here :
      (s w : String)
      → IsClear s
      → StartsApart w
      → (ps : List String) × (split sep (s <> w) ≡ List.◌∷◌ s ps)
  unfolding split
  split-here [] [] clear apart = (List.[], rw (nil-append []) refl)
  split-here [] (c ∷ w) clear apart = (split sep w, rw (nil-append (c ∷ w), apart) refl)
  split-here (c ∷ s) w (h, clear) apart =
      let (ps, e) = split-here s w clear apart in (ps, rw (cons-append c s w, h, e) refl)

  -- The first piece is the first part of a split.
  pub first-split :
      (p t : String) → IsFirstPiece p t → (ps : List String) × (split sep t ≡ List.◌∷◌ p ps)
  first-split p t (w, (e, (clear, apart))) =
      let (ps, split_up) = split-here p w clear apart in (ps, rw (e, split_up) refl)

  split-later :
      (c : Char) (u s w : String)
      → EndsApart (c ∷ u)
      → IsClear s
      → StartsApart w
      → (p : String) × ((ps : List String) × ((split sep ((c ∷ u) <> (s <> w)) ≡ List.◌∷◌ p ps)
            × Memᴰ s ps))
  unfolding split
  split-later c [] s w ends clear apart =
      let (ps, e) = split-here s w clear apart in
      (
        [],
        (
          List.◌∷◌ s ps,
          (rw (cons-append c [] (s <> w), nil-append (s <> w), ends, e) refl, Memᴰ.head refl),
        ),
      )
  split-later c (d ∷ u) s w ends clear apart =
      let (p, (ps, (e, m))) = split-later d u s w ends clear apart in
      elim (Bool-cases (sep (code c))) [
        | inl h ↦
            ([], (List.◌∷◌ p ps, (rw (cons-append c (d ∷ u) (s <> w), h, e) refl, Memᴰ.tail m)))
        | inr h ↦ (c ∷ p, (ps, (rw (cons-append c (d ∷ u) (s <> w), h, e) refl, m)))
      ]

  piece→mem : (s t : String) → IsPiece s t → Memᴰ s (split sep t)
  piece→mem s t ([], (w, (e, (ends, (clear, apart))))) =
      let (ps, split_up) = split-here s w clear apart in
      rw (e, nil-append (s <> w), split_up) (Memᴰ.head refl)
  piece→mem s t (c ∷ u, (w, (e, (ends, (clear, apart))))) =
      let (p, (ps, (split_up, m))) = split-later c u s w ends clear apart in
      rw (e, split_up) (Memᴰ.tail m)

  first→piece : (s t : String) → IsFirstPiece s t → IsPiece s t
  first→piece s t (w, (e, rest)) = ([], (w, (rw (nil-append (s <> w)) e, (tt, rest))))

  later→piece : (s t : String) → IsLaterPiece s t → IsPiece s t
  later→piece s t (c, (u, (w, rest))) = (c ∷ u, (w, rest))

  mem→piece : (s t : String) → Memᴰ s (split sep t) → IsPiece s t
  mem→piece s t m =
      let (p, (ps, (e, (first, later)))) = split-IsSplit t in
      elim (rw e at m) [
        | Memᴰ.head same ↦ first→piece s t (rw same first)
        | Memᴰ.tail n ↦ later→piece s t (later s n)
      ]

  -- The parts of a split are the pieces of the text.
  pub split-mem_iff : (s t : String) → Memᴰ s (split sep t) ↔ IsPiece s t
  split-mem_iff s t = (mem→piece s t, piece→mem s t)

-- what is kept of a list are its texts that are not empty
pub non_empty-mem_iff :
    (s : String) (xs : List String) → Memᴰ s (non_empty xs) ↔ (Memᴰ s xs × (s ≢ ""))
unfolding non_empty
non_empty-mem_iff s List.[] = (λ m. absurd (Memᴰ.not-nil m), λ (m, _). absurd (Memᴰ.not-nil m))
non_empty-mem_iff s (List.◌∷◌ [] xs) =
    let (to, from) = non_empty-mem_iff s xs in
    (
      λ m. let (n, full) = to m in (Memᴰ.tail n, full),
      λ (m, full). elim m [ Memᴰ.head e ↦ absurd (full e) | Memᴰ.tail n ↦ from (n, full) ],
    )
non_empty-mem_iff s (List.◌∷◌ (c ∷ x) xs) =
    let (to, from) = non_empty-mem_iff s xs in
    (
      λ m. elim m [
        | Memᴰ.head e ↦ (Memᴰ.head e, λ h. cons≢nil (rw e at h))
        | Memᴰ.tail n ↦ let (k, full) = to n in (Memᴰ.tail k, full)
      ],
      λ (m, full). elim m [ Memᴰ.head e ↦ Memᴰ.head e | Memᴰ.tail n ↦ Memᴰ.tail (from (n, full)) ],
    )
