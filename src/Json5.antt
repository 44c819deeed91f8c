-- ===== src/Json5.antt =====
-- common/json5/json5.go: comments and trailing commas are blanked before the configuration is read as
-- JSON. A position is an index into the bytes; writing is `set`. Each loop runs on one more than the
-- length of the text as its fuel, and is none where the fuel runs out.
pub mod Blanked
pub mod Blanks
pub mod Lines
mod Tests
use v2sp.Prelude.{
  ltb, leb, nat_beq, if◌then◌else◌, ltb→lt, leb→le, nat_beq_iff, Bool-cases, Option-cases, Eq, ◌==◌,
  nat_eq, eq_refl, is_some, option_or, ℤ, pos_part, neg_part, sub_ℕ, ◌+ℤ◌, ◌-ℤ◌, ◌*ℤ◌, quot, ◌≤ℤ◌,
  ◌<ℤ◌, ltb_ℤ, leb_ℤ, int_beq, int_beq_iff, int_eq, wrap64, IsInt64, wrap64_fits, wrap64-IsInt64,
  pos, negsuc, length, is_empty, get_elem?, set, length-append, get_elem?-set_self,
  get_elem?-set_ne, get_elem?-lt, All, contains, contains-append, Map, lookup, insert, delete,
  Distinct, lookup-insert, lookup-delete, lookup-insert_self, lookup-delete_self, length-insert,
  insert-Distinct, delete-Distinct, delete_absent, length-delete, Text, codes, text_beq,
  text_beq_iff, text_eq, starts_with, drop, size, trim_prefix, ends_with, contains_byte, lower_byte,
  to_lower, digits_from, itoa, ℕ, zero, suc, ◌+◌, ◌-◌, ◌*◌, ◌/◌, ◌%◌, ◌^◌, ◌≤◌, ◌<◌, ◌≡◌, refl, sym,
  ap, ◌∙◌, ◌≢◌, ◌↔◌, ◌⊎◌, inl, inr, Bool, true, false, not, ◌&&◌, ◌||◌, Option, none, some, List,
  [], ◌∷◌, ◌++◌, map, arith,
}

abbrev blank : ℕ
blank = 32

unfoldable pub is_nl : ℕ → Bool
is_nl c = nat_beq c 10 || nat_beq c 13

unfoldable pub is_ws : ℕ → Bool
unfolding is_nl
is_ws c = nat_beq c 32 || (nat_beq c 9 || is_nl c)

infixl 5 ◌>>=◌
abbrev pub ◌>>=◌ : {A B : Type 0} → Option A → (A → Option B) → Option B
none >>= f = none
some a >>= f = f a

-- The first loop of `consumeComment`: a comment to the end of the line.
unfoldable pub blank_line : ℕ → Text → ℕ → Option (Text × ℕ)
blank_line zero s i = none
blank_line (suc fuel) s i =
    let more = blank_line fuel (set s i blank) (suc i) in
    elim (get_elem? s i) [ none ↦ some (s, i) | some c ↦ if is_nl c then some (s, i) else more ]

-- The second loop: a block comment. At a star the next byte is looked at and skipped, unless it ends
-- the comment.
unfoldable pub blank_block : ℕ → Text → ℕ → Option (Text × ℕ)
blank_block zero s i = none
blank_block (suc fuel) s i =
    let s1 = set s i blank in
    let plain = blank_block fuel s1 (suc i) in
    let starred = blank_block fuel s1 (suc (suc i)) in
    elim (get_elem? s i) [
      | none ↦ some (s, i)
      | some c ↦ if not (nat_beq c b'*') then plain else elim (get_elem? s (suc i)) [
        | none ↦ starred
        | some d ↦ if nat_beq d b'/' then some (set s1 (suc i) blank, suc i) else starred
      ]
    ]

-- `consumeComment(s, i)`, called behind a slash: its two branches in turn.
unfoldable pub consume_line : Text → ℕ → Option (Text × ℕ)
consume_line s i =
    let line = blank_line (suc (length s)) (set s (i - 1) blank) i in
    elim (get_elem? s i) [
      | none ↦ some (s, i)
      | some c ↦ if nat_beq c b'/' then line else some (s, i)
    ]

unfoldable pub consume_block : Text → ℕ → Option (Text × ℕ)
consume_block s i =
    let block = blank_block (suc (length s)) (set (set s (i - 1) blank) i blank) i in
    elim (get_elem? s i) [
      | none ↦ some (s, i)
      | some c ↦ if nat_beq c b'*' then block else some (s, i)
    ]

unfoldable pub consume_comment : Text → ℕ → Option (Text × ℕ)
consume_comment s i = consume_line s i >>= λ (s1, i1). consume_block s1 i1

-- The loop over a string, from behind its first quote: the position behind its last.
unfoldable pub skip_string : ℕ → Text → ℕ → Option ℕ
skip_string zero s i = none
skip_string (suc fuel) s i =
    let plain = skip_string fuel s (suc i) in
    let escaped = skip_string fuel s (suc (suc i)) in
    elim (get_elem? s i) [
      | none ↦ some i
      | some c ↦ if nat_beq c b'"' then some (suc i) else if nat_beq c b'\\' then escaped else plain
    ]

-- The loop behind a comma at `j`, which is blanked if the next thing is a closing bracket.
unfoldable pub skip_comma : ℕ → Text → ℕ → ℕ → Option (Text × ℕ)
unfolding is_ws
skip_comma zero s j i = none
skip_comma (suc fuel) s j i =
    let comment = consume_comment s (suc (suc i)) >>= λ (s', i'). skip_comma fuel s' j i' in
    let space = skip_comma fuel s j (suc i) in
    elim (get_elem? s (suc i)) [
      | none ↦ some (s, suc i)
      | some c ↦
          if nat_beq c b'}' || nat_beq c b']'
          then some (set s j blank, suc i)
          else if nat_beq c b'/'
          then comment
          else if not (is_ws c)
          then some (s, suc i)
          else space
    ]

-- One pass of the loop of `prep`, at a byte `c`.
unfoldable pub prep_step : ℕ → Text → ℕ → Option (Text × ℕ)
prep_step c s i =
    if nat_beq c b'"'
    then (skip_string (suc (length s)) s (suc i) >>= λ i'. some (s, i'))
    else if nat_beq c b'/'
    then consume_comment s (suc i)
    else if nat_beq c b','
    then skip_comma (suc (length s)) s i i
    else some (s, suc i)

unfoldable pub prep_loop : ℕ → Text → ℕ → Option Text
prep_loop zero s i = none
prep_loop (suc fuel) s i = elim (get_elem? s i) [
  | none ↦ some s
  | some c ↦ prep_step c s i >>= λ (s', i'). prep_loop fuel s' i'
]

unfoldable pub prep : Text → Option Text
prep s = prep_loop (suc (length s)) s 0
