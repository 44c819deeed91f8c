-- ===== src/Json5/Lines.antt =====
-- prep of common/json5/json5.go on a comment to the end of the line.
use v2sp.Prelude.{
  nat_eq, nat_beq, int_eq, length, get_elem?, set, Text, text_eq, ℕ, zero, suc, ◌+◌, ◌-◌,
  length-append, ◌≤◌, ◌<◌, ◌≡◌, refl, sym, ap, ◌∙◌, some, none, [], ◌∷◌, ◌++◌, false, arith,
}
use v2sp.Json5.Blanked.{IsBlanked, get_elem?-end}
use v2sp.Json5.Blanks.{prep_total}
use v2sp.Json5.{
  is_nl, blank, blank_line, consume_line, consume_block, consume_comment, prep_step, prep_loop,
  prep,
}

-- Bytes outside strings and comments that are not looked at: no quote, slash or comma.
unfoldable pub IsPlain : Text → Type 0
IsPlain [] = Unit
IsPlain (c ∷ s) =
    ((nat_beq c b'"' ≡ false) × (nat_beq c b'/' ≡ false) × (nat_beq c b',' ≡ false)) × IsPlain s

unfoldable pub IsOneLine : Text → Type 0
IsOneLine [] = Unit
IsOneLine (c ∷ s) = (is_nl c ≡ false) × IsOneLine s

abbrev pub blanks : Text → Text
blanks [] = []
blanks (c ∷ s) = blank ∷ blanks s

get_elem?-at : (pre : Text) (c : ℕ) (s : Text) → get_elem? (pre ++ (c ∷ s)) (length pre) ≡ some c
get_elem?-at [] c s = refl
get_elem?-at (x ∷ pre) c s = get_elem?-at pre c s

get_elem?-past : (pre : Text) → get_elem? (pre ++ []) (length pre) ≡ none
get_elem?-past [] = refl
get_elem?-past (x ∷ pre) = get_elem?-past pre

set-at : (pre : Text) (c d : ℕ) (s : Text) → set (pre ++ (c ∷ s)) (length pre) d ≡ pre ++ (d ∷ s)
set-at [] c d s = refl
set-at (x ∷ pre) c d s = ap (λ t. x ∷ t) (set-at pre c d s)

move_over : (pre : Text) (c : ℕ) (s : Text) → pre ++ (c ∷ s) ≡ (pre ++ (c ∷ [])) ++ s
move_over [] c s = refl
move_over (x ∷ pre) c s = ap (λ t. x ∷ t) (move_over pre c s)

length-end : (pre : Text) (c : ℕ) → length (pre ++ (c ∷ [])) ≡ suc (length pre)
length-end [] c = refl
length-end (x ∷ pre) c = ap suc (length-end pre c)

-- The loop over a comment, with `pre` behind it.
blank_line_rest :
    (line pre : Text) (fuel i : ℕ)
    → i ≡ length pre
    → IsOneLine line
    → length line < fuel
    → blank_line fuel (pre ++ line) i ≡ some (pre ++ blanks line, i + length line)
unfolding blank_line IsOneLine
blank_line_rest [] pre zero i at one le = absurd (omega (arith, le))
blank_line_rest [] pre (suc fuel) i at one le =
    rw (at, get_elem?-past pre, blank_line) (ap (λ n. some (pre ++ [], n)) (omega arith))
blank_line_rest (c ∷ line) pre zero i at one le = absurd (omega (arith, le))
blank_line_rest (c ∷ line) pre (suc fuel) i at (plain, one) le =
    let later =
      blank_line_rest line (pre ++ (blank ∷ [])) fuel (suc i)
        (ap suc at ∙ sym (length-end pre blank)) one (omega (arith, le)) in
    let first : get_elem? (pre ++ (c ∷ line)) i ≡ some c =
      ap (get_elem? (pre ++ (c ∷ line))) at ∙ get_elem?-at pre c line in
    let blanked : set (pre ++ (c ∷ line)) i blank ≡ (pre ++ (blank ∷ [])) ++ line =
      ap (λ n. set (pre ++ (c ∷ line)) n blank) at
      ∙ set-at pre c blank line
      ∙ move_over pre blank line in
    rw (first, plain, blanked, later, blank_line)
      (ap some (
        ap (λ t. (t, suc i + length line)) (sym (move_over pre blank (blanks line)))
        ∙ ap (λ n. (pre ++ (blank ∷ blanks line), n)) (omega arith)))

length-blanks : (s : Text) → length (blanks s) ≡ length s
length-blanks [] = refl
length-blanks (c ∷ s) = ap suc (length-blanks s)

consume_block-end : (s : Text) (i : ℕ) → length s ≤ i → consume_block s i ≡ some (s, i)
unfolding consume_block
consume_block-end s i le = rw (get_elem?-end s i le, consume_block) refl

-- The comment behind its first slash, at the end of the text: first the loop, then the whole call.
consume_line-line :
    (pre line : Text) (i : ℕ)
    → i ≡ length pre
    → IsOneLine line
    → consume_line (pre ++ (b'/' ∷ b'/' ∷ line)) (suc i)
      ≡ some (pre ++ blanks (b'/' ∷ b'/' ∷ line), suc i + suc (length line))
unfolding consume_line is_nl IsOneLine
consume_line-line pre line i at one =
    let s = pre ++ (b'/' ∷ b'/' ∷ line) in
    let next = pre ++ (blank ∷ []) in
    let size : length s ≡ length pre + suc (suc (length line)) = length-append pre _ in
    let before : suc i - 1 ≡ i = omega arith in
    let second : get_elem? s (suc i) ≡ some b'/' =
      ap (get_elem? s) (ap suc at ∙ sym (length-end pre b'/'))
      ∙ ap (λ t. get_elem? t (length (pre ++ (b'/' ∷ [])))) (move_over pre b'/' (b'/' ∷ line))
      ∙ get_elem?-at (pre ++ (b'/' ∷ [])) b'/' line in
    let blanked : set s i blank ≡ next ++ (b'/' ∷ line) =
      ap (λ n. set s n blank) at
      ∙ set-at pre b'/' blank (b'/' ∷ line)
      ∙ move_over pre blank (b'/' ∷ line) in
    let rest =
      blank_line_rest (b'/' ∷ line) next (suc (length s)) (suc i)
        (ap suc at ∙ sym (length-end pre blank)) (refl, one) (omega (arith, size)) in
    rw (second, before, blanked, consume_line)
      (rest
        ∙ ap (λ t. some (t, suc i + suc (length line)))
            (sym (move_over pre blank (blanks (b'/' ∷ line)))))

consume_comment-line :
    (pre line : Text) (i : ℕ)
    → i ≡ length pre
    → IsOneLine line
    → consume_comment (pre ++ (b'/' ∷ b'/' ∷ line)) (suc i)
      ≡ some (pre ++ blanks (b'/' ∷ b'/' ∷ line), suc i + suc (length line))
unfolding consume_comment
consume_comment-line pre line i at one =
    let t = pre ++ blanks (b'/' ∷ b'/' ∷ line) in
    let size : length t ≡ length pre + suc (suc (length (blanks line))) = length-append pre _ in
    rw (consume_line-line pre line i at one, consume_comment)
      (consume_block-end t (suc i + suc (length line))
        (omega (arith, size, length-blanks line, at)))

-- The loop of `prep` over bytes that it passes by, with `pre` behind it.
prep_loop-plain :
    (todo pre rest : Text) (n fuel i k : ℕ)
    → n ≡ length todo + fuel
    → i ≡ length pre
    → k ≡ i + length todo
    → IsPlain todo
    → prep_loop n (pre ++ (todo ++ rest)) i ≡ prep_loop fuel (pre ++ (todo ++ rest)) k
unfolding prep_loop prep_step IsPlain
prep_loop-plain [] pre rest n fuel i k size at to plain =
    let same_fuel : n ≡ fuel = omega (arith, size) in
    let same_place : i ≡ k = omega (arith, to) in
    ap (λ x. prep_loop x (pre ++ rest) i) same_fuel ∙ ap (prep_loop fuel (pre ++ rest)) same_place
prep_loop-plain (c ∷ todo) pre rest zero fuel i k size at to plain = absurd (omega (arith, size))
prep_loop-plain (c ∷ todo) pre rest (suc n) fuel i k size at to ((quote, slash, comma), plain) =
    let s = pre ++ (c ∷ (todo ++ rest)) in
    let first : get_elem? s i ≡ some c = ap (get_elem? s) at ∙ get_elem?-at pre c (todo ++ rest) in
    let later =
      prep_loop-plain todo (pre ++ (c ∷ [])) rest n fuel (suc i) k (omega (arith, size))
        (ap suc at ∙ sym (length-end pre c)) (omega (arith, to)) plain in
    let same = move_over pre c (todo ++ rest) in
    rw (first, quote, slash, comma, prep_loop, prep_step)
      (ap (λ t. prep_loop n t (suc i)) same ∙ later ∙ ap (λ t. prep_loop fuel t k) (sym same))

prep_loop-end : (fuel : ℕ) (s : Text) (i : ℕ) → length s ≤ i → prep_loop (suc fuel) s i ≡ some s
unfolding prep_loop
prep_loop-end fuel s i le = rw (get_elem?-end s i le, prep_loop) refl

prep_loop-line :
    (pre line : Text) (fuel : ℕ)
    → IsOneLine line
    → prep_loop (suc (suc fuel)) (pre ++ (b'/' ∷ b'/' ∷ line)) (length pre)
      ≡ some (pre ++ blanks (b'/' ∷ b'/' ∷ line))
unfolding prep_loop prep_step
prep_loop-line pre line fuel one =
    let t = pre ++ blanks (b'/' ∷ b'/' ∷ line) in
    let size : length t ≡ length pre + suc (suc (length (blanks line))) = length-append pre _ in
    rw
      (
        get_elem?-at pre b'/' (b'/' ∷ line),
        prep_loop,
        prep_step,
        consume_comment-line pre line (length pre) refl one,
      )
      (prep_loop-end fuel t (suc (length pre) + suc (length line))
        (omega (arith, size, length-blanks line)))

prep-line :
    (pre line : Text)
    → IsPlain pre
    → IsOneLine line
    → prep (pre ++ (b'/' ∷ b'/' ∷ line)) ≡ some (pre ++ blanks (b'/' ∷ b'/' ∷ line))
unfolding prep
prep-line pre line plain one =
    let s = pre ++ (b'/' ∷ b'/' ∷ line) in
    let size : length s ≡ length pre + suc (suc (length line)) = length-append pre _ in
    prep_loop-plain pre [] (b'/' ∷ b'/' ∷ line) (suc (length s)) (suc (suc (suc (length line)))) 0
      (length pre) (omega (arith, size)) refl (omega arith) plain
    ∙ prep_loop-line pre line (suc (length line)) one

-- The reading of the configuration ends, each of its loops within its fuel. What comes out has the
-- length of what goes in, and each byte is kept or blanked. In particular a comment to the end of the
-- line, at the end of the text and behind bytes with no quote, slash or comma, is blanked, and what
-- stands before it is kept.
pub prep_lem :
    (s pre line : Text)
    → IsPlain pre
    → IsOneLine line
    → ((t : Text) × (prep s ≡ some t) × IsBlanked s t × (length t ≡ length s))
      × (prep (pre ++ (b'/' ∷ b'/' ∷ line)) ≡ some (pre ++ blanks (b'/' ∷ b'/' ∷ line)))
prep_lem s pre line plain one = (prep_total s, prep-line pre line plain one)
