-- ===== src/Context/Clip.antt =====
-- What `_clip_transcript` keeps of a transcript.
use lenko_bot.Prelude.{
  ℕ, zero, suc, ◌-◌, ◌≡◌, ap, refl, sym, ◌∙◌, List, [], ◌∷◌, ◌++◌, map, min, true, false, inl, inr,
  arith, Bool-cases, ◌==◌, length, take,
}
use mathlib.Core.List.{reverse, reverse-reverse}
use lenko_bot.Text.{Text, is_empty}
use lenko_bot.State.{TranscriptTurn}
use lenko_bot.Context.{TranscriptContextLimits, entry_of, clip_loop, clip_transcript}

-- The texts one after the other.
abbrev pub joined : List Text → Text
joined [] = []
joined (t ∷ ts) = t ++ joined ts

take-take : {A : Type 0} (n m : ℕ) (xs : List A) → take (min m n) xs ≡ take n (take m xs)
take-take zero m xs = let e : min m 0 ≡ 0 = omega arith in rw e refl
take-take (suc n) zero xs = let e : min 0 (suc n) ≡ 0 = omega arith in rw e refl
take-take (suc n) (suc m) [] =
    let e : min (suc m) (suc n) ≡ suc (min m n) = omega arith in rw e refl
take-take (suc n) (suc m) (x ∷ xs) =
    let e : min (suc m) (suc n) ≡ suc (min m n) = omega arith in
    rw e (ap (λ l. x ∷ l) (take-take n m xs))

take-append :
    {A : Type 0} (n : ℕ) (xs ys : List A)
    → take n (xs ++ ys) ≡ take n xs ++ take (n - length (take n xs)) ys
take-append zero xs ys = refl
take-append (suc n) [] ys = let e : suc n - 0 ≡ suc n = omega arith in rw e refl
take-append (suc n) (x ∷ xs) ys =
    let e : suc n - suc (length (take n xs)) ≡ n - length (take n xs) = omega arith in
    rw e (ap (λ l. x ∷ l) (take-append n xs ys))

-- The turns, each cut to the limit of a turn, one after the other.
abbrev pub cut_turns : ℕ → List TranscriptTurn → Text
cut_turns limit ts = joined (map (λ t. take limit t.content) ts)

take-nil : (n : ℕ) → take {A = ℕ} n [] ≡ []
take-nil zero = refl
take-nil (suc n) = refl

clip-skip :
    (limit remaining : ℕ) (t : TranscriptTurn) (ts : List TranscriptTurn)
    → (remaining == 0) ≡ false
    → is_empty (take (min limit remaining) t.content) ≡ true
    → clip_loop limit remaining (t ∷ ts) ≡ clip_loop limit remaining ts
unfolding clip_loop
clip-skip limit remaining t ts e f = rw (clip_loop, e, f) refl

clip-keep :
    (limit remaining : ℕ) (t : TranscriptTurn) (ts : List TranscriptTurn)
    → (remaining == 0) ≡ false
    → is_empty (take (min limit remaining) t.content) ≡ false
    → clip_loop limit remaining (t ∷ ts)
      ≡ entry_of (take (min limit remaining) t.content) t
        ∷ clip_loop limit (remaining - length (take (min limit remaining) t.content)) ts
unfolding clip_loop
clip-keep limit remaining t ts e f = rw (clip_loop, e, f) refl

no_text : (t : Text) → is_empty t ≡ true → t ≡ []
unfolding is_empty
no_text [] h = refl
no_text (c ∷ t) h = cc

clip_loop-take :
    (limit remaining : ℕ) (ts : List TranscriptTurn)
    → joined (map (λ e. e.content) (clip_loop limit remaining ts))
      ≡ take remaining (cut_turns limit ts)
unfolding clip_loop
clip_loop-take limit remaining [] = sym (take-nil remaining)
clip_loop-take limit remaining (t ∷ ts) = elim (Bool-cases (remaining == 0)) [
  | inl e ↦ let none_left : remaining ≡ 0 = ground arith in rw none_left refl
  | inr e ↦
      let content = take (min limit remaining) t.content in
      let cut = take-take remaining limit t.content in
      let split = take-append remaining (take limit t.content) (cut_turns limit ts) in
      elim (Bool-cases (is_empty content)) [
        | inl f ↦ rw (clip-skip limit remaining t ts e f) (
            clip_loop-take limit remaining ts
            ∙ sym (
                split
                ∙ rw (← cut, no_text content f)
                    (ap (λ n. take n (cut_turns limit ts)) (omega arith))))
        | inr f ↦ rw (clip-keep limit remaining t ts e f) (
            ap (λ u. content ++ u) (clip_loop-take limit (remaining - length content) ts)
            ∙ sym (split ∙ rw (← cut) refl))
      ]
]

-- The characters of a clipped transcript, from the newest entry to the oldest, are the first
-- `max_chars` characters of the turns, the newest first, each cut to `max_turn_chars`.
pub clip_transcript-joined :
    (l : TranscriptContextLimits) (records : List TranscriptTurn)
    → joined (map (λ e. e.content) (reverse (clip_transcript l records)))
      ≡ take l.max_chars (cut_turns l.max_turn_chars (reverse records))
unfolding clip_transcript
clip_transcript-joined l records =
    rw (reverse-reverse (clip_loop l.max_turn_chars l.max_chars (reverse records)))
      (clip_loop-take l.max_turn_chars l.max_chars (reverse records))
