-- ===== src/Json5/Blanks.antt =====
-- prep of common/json5/json5.go: what the removal of comments and trailing commas may change, and its
-- fuel.
use v2sp.Prelude.{
  some, Option, Bool-cases, nat_beq, ◌||◌, Option-cases, nat_eq, int_eq, length, get_elem?, set,
  Text, text_eq, ℕ, zero, suc, ◌-◌, ◌≤◌, ◌≡◌, refl, inl, inr, none, arith,
}
use v2sp.Json5.{
  is_nl, is_ws, ◌>>=◌, blank, blank_line, blank_block, consume_line, consume_block, consume_comment,
  skip_string, skip_comma, prep_step, prep_loop, prep,
}
use v2sp.Json5.Blanked.{
  IsBlanked, IsBlanked-refl, IsBlanked-trans, set-IsBlanked, set-IsBlanked_after, length-IsBlanked,
  Ends, Ends-after, Ends-bind, IsFuelled, IsFuelled-later,
}

blank_line-Ends :
    (fuel : ℕ) (s : Text) (i : ℕ) → IsFuelled fuel s i → Ends s i (blank_line fuel s i)
unfolding blank_line
blank_line-Ends zero s i (h, _) = absurd (omega (arith, h))
blank_line-Ends (suc fuel) s i h = elim (Option-cases (get_elem? s i)) [
  | inl e ↦ rw (e, blank_line) (IsBlanked-refl s, omega arith)
  | inr (c, e) ↦
      let b = set-IsBlanked s i in
      let more =
        blank_line-Ends fuel (set s i blank) (suc i)
          (IsFuelled-later fuel s (set s i blank) i (suc i) c h e b (omega arith)) in
      let k = Ends-after s (set s i blank) i (suc i) _ b (omega arith) more in
      elim (Bool-cases (is_nl c)) [
        | inl nl ↦ rw (e, nl, blank_line) (IsBlanked-refl s, omega arith)
        | inr other ↦ rw (e, other, blank_line) k
      ]
]

blank_block-Ends :
    (fuel : ℕ) (s : Text) (i : ℕ) → IsFuelled fuel s i → Ends s i (blank_block fuel s i)
unfolding blank_block
blank_block-Ends zero s i (h, _) = absurd (omega (arith, h))
blank_block-Ends (suc fuel) s i h = elim (Option-cases (get_elem? s i)) [
  | inl e ↦ rw (e, blank_block) (IsBlanked-refl s, omega arith)
  | inr (c, e) ↦
      let s1 = set s i blank in
      let b = set-IsBlanked s i in
      let plain = Ends-after s s1 i (suc i) _ b (omega arith) (
        blank_block-Ends fuel s1 (suc i)
          (IsFuelled-later fuel s s1 i (suc i) c h e b (omega arith))) in
      let starred = Ends-after s s1 i (suc (suc i)) _ b (omega arith) (
        blank_block-Ends fuel s1 (suc (suc i))
          (IsFuelled-later fuel s s1 i (suc (suc i)) c h e b (omega arith))) in
      elim (Bool-cases (nat_beq c b'*')) [
        | inr other ↦ rw (e, other, blank_block) plain
        | inl star ↦ elim (Option-cases (get_elem? s (suc i))) [
          | inl e' ↦ rw (e, star, e', blank_block) starred
          | inr (d, e') ↦ elim (Bool-cases (nat_beq d b'/')) [
            | inl slash ↦
                rw (e, star, e', slash, blank_block)
                  (set-IsBlanked_after s s1 (suc i) b, omega arith)
            | inr other ↦ rw (e, star, e', other, blank_block) starred
          ]
        ]
      ]
]

consume_line-Ends : (s : Text) (i : ℕ) → Ends s i (consume_line s i)
unfolding consume_line
consume_line-Ends s i =
    let b = set-IsBlanked s (i - 1) in
    let same = length-IsBlanked s (set s (i - 1) blank) b in
    let k = Ends-after s (set s (i - 1) blank) i i _ b (omega arith) (
      blank_line-Ends (suc (length s)) (set s (i - 1) blank) i
        (omega arith, omega (arith, same))) in
    elim (Option-cases (get_elem? s i)) [
      | inl e ↦ rw (e, consume_line) (IsBlanked-refl s, omega arith)
      | inr (c, e) ↦ elim (Bool-cases (nat_beq c b'/')) [
        | inl slash ↦ rw (e, slash, consume_line) k
        | inr other ↦ rw (e, other, consume_line) (IsBlanked-refl s, omega arith)
      ]
    ]

consume_block-Ends : (s : Text) (i : ℕ) → Ends s i (consume_block s i)
unfolding consume_block
consume_block-Ends s i =
    let t = set (set s (i - 1) blank) i blank in
    let b = set-IsBlanked_after s (set s (i - 1) blank) i (set-IsBlanked s (i - 1)) in
    let same = length-IsBlanked s t b in
    let k =
      Ends-after s t i i _ b (omega arith)
        (blank_block-Ends (suc (length s)) t i (omega arith, omega (arith, same))) in
    elim (Option-cases (get_elem? s i)) [
      | inl e ↦ rw (e, consume_block) (IsBlanked-refl s, omega arith)
      | inr (c, e) ↦ elim (Bool-cases (nat_beq c b'*')) [
        | inl star ↦ rw (e, star, consume_block) k
        | inr other ↦ rw (e, other, consume_block) (IsBlanked-refl s, omega arith)
      ]
    ]

consume_comment-Ends : (s : Text) (i : ℕ) → Ends s i (consume_comment s i)
unfolding consume_comment
consume_comment-Ends s i =
    Ends-bind s i (consume_line s i) (λ (t, j). consume_block t j) (consume_line-Ends s i)
      λ t j b le. consume_block-Ends t j

-- The end of a string is a position that is not before its start.
abbrev EndsAt : ℕ → Option ℕ → Type 0
EndsAt i none = ⊥
EndsAt i (some j) = i ≤ j

EndsAt-before : (i j : ℕ) (o : Option ℕ) → i ≤ j → EndsAt j o → EndsAt i o
EndsAt-before i j none le h = h
EndsAt-before i j (some k) le h = omega (arith, le, h)

skip_string-EndsAt :
    (fuel : ℕ) (s : Text) (i : ℕ) → IsFuelled fuel s i → EndsAt i (skip_string fuel s i)
unfolding skip_string
skip_string-EndsAt zero s i (h, _) = absurd (omega (arith, h))
skip_string-EndsAt (suc fuel) s i h = elim (Option-cases (get_elem? s i)) [
  | inl e ↦ rw (e, skip_string) (omega arith)
  | inr (c, e) ↦
      let b = IsBlanked-refl s in
      let plain = EndsAt-before i (suc i) _ (omega arith) (
        skip_string-EndsAt fuel s (suc i)
          (IsFuelled-later fuel s s i (suc i) c h e b (omega arith))) in
      let escaped = EndsAt-before i (suc (suc i)) _ (omega arith) (
        skip_string-EndsAt fuel s (suc (suc i))
          (IsFuelled-later fuel s s i (suc (suc i)) c h e b (omega arith))) in
      elim (Bool-cases (nat_beq c b'"')) [
        | inl quote ↦ rw (e, quote, skip_string) (omega arith)
        | inr other ↦ elim (Bool-cases (nat_beq c b'\\')) [
          | inl escape ↦ rw (e, other, escape, skip_string) escaped
          | inr no_escape ↦ rw (e, other, no_escape, skip_string) plain
        ]
      ]
]

skip_comma-Ends :
    (fuel : ℕ) (s : Text) (j i : ℕ)
    → IsFuelled fuel s (suc i)
    → Ends s (suc i) (skip_comma fuel s j i)
unfolding skip_comma
skip_comma-Ends zero s j i (h, _) = absurd (omega (arith, h))
skip_comma-Ends (suc fuel) s j i h = elim (Option-cases (get_elem? s (suc i))) [
  | inl e ↦ rw (e, skip_comma) (IsBlanked-refl s, omega arith)
  | inr (c, e) ↦
      let space = Ends-after s s (suc i) (suc (suc i)) _ (IsBlanked-refl s) (omega arith) (
        skip_comma-Ends fuel s j (suc i) (
          IsFuelled-later fuel s s (suc i) (suc (suc i)) c h e (IsBlanked-refl s) (omega arith))) in
      let comment = Ends-after s s (suc i) (suc (suc i)) _ (IsBlanked-refl s) (omega arith) (
        Ends-bind s (suc (suc i)) (consume_comment s (suc (suc i)))
          (λ (t, k). skip_comma fuel t j k) (consume_comment-Ends s (suc (suc i)))
          λ t k b le. Ends-after t t k (suc k) _ (IsBlanked-refl t) (omega arith) (
            skip_comma-Ends fuel t j k
              (IsFuelled-later fuel s t (suc i) (suc k) c h e b (omega (arith, le))))) in
      elim (Bool-cases (nat_beq c b'}' || nat_beq c b']')) [
        | inl closing ↦ rw (e, closing, skip_comma) (set-IsBlanked s j, omega arith)
        | inr other ↦ elim (Bool-cases (nat_beq c b'/')) [
          | inl slash ↦ rw (e, other, slash, skip_comma) comment
          | inr no_slash ↦ elim (Bool-cases (is_ws c)) [
            | inl ws ↦ rw (e, other, no_slash, ws, skip_comma) space
            | inr no_ws ↦ rw (e, other, no_slash, no_ws, skip_comma) (IsBlanked-refl s, omega arith)
          ]
        ]
      ]
]

string-Ends : (s : Text) (i : ℕ) (o : Option ℕ) → EndsAt i o → Ends s i (o >>= λ i'. some (s, i'))
string-Ends s i none h = h
string-Ends s i (some j) h = (IsBlanked-refl s, h)

prep_step-Ends : (c : ℕ) (s : Text) (i : ℕ) → Ends s (suc i) (prep_step c s i)
unfolding prep_step
prep_step-Ends c s i = elim (Bool-cases (nat_beq c b'"')) [
  | inl quote ↦
      rw (quote, prep_step)
        (string-Ends s (suc i) _
          (skip_string-EndsAt (suc (length s)) s (suc i) (omega arith, omega arith)))
  | inr other ↦ elim (Bool-cases (nat_beq c b'/')) [
    | inl slash ↦ rw (other, slash, prep_step) (consume_comment-Ends s (suc i))
    | inr no_slash ↦ elim (Bool-cases (nat_beq c b',')) [
      | inl comma ↦
          rw (other, no_slash, comma, prep_step)
            (skip_comma-Ends (suc (length s)) s i i (omega arith, omega arith))
      | inr plain ↦ rw (other, no_slash, plain, prep_step) (IsBlanked-refl s, omega arith)
    ]
  ]
]

-- The text that comes out has some bytes replaced by blanks.
abbrev EndsIn : Text → Option Text → Type 0
EndsIn s none = ⊥
EndsIn s (some t) = IsBlanked s t

EndsIn-after : (s t : Text) (o : Option Text) → IsBlanked s t → EndsIn t o → EndsIn s o
EndsIn-after s t none b h = h
EndsIn-after s t (some u) b h = IsBlanked-trans s t u b h

EndsIn-bind :
    (s : Text) (i : ℕ) (o : Option (Text × ℕ)) (f : Text × ℕ → Option Text)
    → Ends s i o
    → ((t : Text) (j : ℕ) → IsBlanked s t → i ≤ j → EndsIn t (f (t, j)))
    → EndsIn s (o >>= f)
EndsIn-bind s i none f h k = h
EndsIn-bind s i (some (t, j)) f (b, le) k = EndsIn-after s t (f (t, j)) b (k t j b le)

prep_loop-EndsIn :
    (fuel : ℕ) (s : Text) (i : ℕ) → IsFuelled fuel s i → EndsIn s (prep_loop fuel s i)
unfolding prep_loop
prep_loop-EndsIn zero s i (h, _) = absurd (omega (arith, h))
prep_loop-EndsIn (suc fuel) s i h = elim (Option-cases (get_elem? s i)) [
  | inl e ↦ rw (e, prep_loop) (IsBlanked-refl s)
  | inr (c, e) ↦
      rw (e, prep_loop)
        (EndsIn-bind s (suc i) (prep_step c s i) (λ (t, j). prep_loop fuel t j)
          (prep_step-Ends c s i)
          λ t j b le. prep_loop-EndsIn fuel t j (IsFuelled-later fuel s t i j c h e b le))
]

EndsIn-some :
    (s : Text) (o : Option Text)
    → EndsIn s o
    → (t : Text) × (o ≡ some t) × IsBlanked s t × (length t ≡ length s)
EndsIn-some s none h = elim h [ ]
EndsIn-some s (some t) b = (t, refl, b, length-IsBlanked s t b)

-- The reading of the configuration ends, each of its loops within its fuel. What comes out has the
-- length of what goes in, and each byte is kept or blanked.
pub prep_total : (s : Text) → (t : Text) × (prep s ≡ some t) × IsBlanked s t × (length t ≡ length s)
unfolding prep
prep_total s =
    EndsIn-some s (prep_loop (suc (length s)) s 0)
      (prep_loop-EndsIn (suc (length s)) s 0 (omega arith, omega arith))
