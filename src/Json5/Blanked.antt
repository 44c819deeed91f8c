-- ===== src/Json5/Blanked.antt =====
-- Blanking of bytes, and loops over a text that blank: for common/json5/json5.go.
use v2sp.Prelude.{
  some, Option, get_elem?-lt, ◌<◌, nat_eq, int_eq, length, get_elem?, set, Text, text_eq, ℕ, zero,
  suc, ◌+◌, ◌≤◌, ◌≡◌, refl, ◌⊎◌, inl, inr, none, [], ◌∷◌, arith,
}
use v2sp.Json5.{◌>>=◌, blank}

-- The second text is the first with some bytes replaced by blanks.
unfoldable pub IsBlanked : Text → Text → Type 0
IsBlanked [] [] = Unit
IsBlanked [] (y ∷ t) = ⊥
IsBlanked (x ∷ s) [] = ⊥
IsBlanked (x ∷ s) (y ∷ t) = ((y ≡ x) ⊎ (y ≡ blank)) × IsBlanked s t

pub IsBlanked-refl : (s : Text) → IsBlanked s s
unfolding IsBlanked
IsBlanked-refl [] = tt
IsBlanked-refl (x ∷ s) = (inl refl, IsBlanked-refl s)

pub IsBlanked-trans : (s t u : Text) → IsBlanked s t → IsBlanked t u → IsBlanked s u
unfolding IsBlanked
IsBlanked-trans [] [] [] h k = tt
IsBlanked-trans [] [] (z ∷ u) h k = k
IsBlanked-trans [] (y ∷ t) u h k = elim h [ ]
IsBlanked-trans (x ∷ s) [] u h k = elim h [ ]
IsBlanked-trans (x ∷ s) (y ∷ t) [] h k = elim k [ ]
IsBlanked-trans (x ∷ s) (y ∷ t) (z ∷ u) (h, hs) (k, ks) =
    (ground arith, IsBlanked-trans s t u hs ks)

pub set-IsBlanked : (s : Text) (i : ℕ) → IsBlanked s (set s i blank)
unfolding IsBlanked
set-IsBlanked [] i = tt
set-IsBlanked (x ∷ s) zero = (inr refl, IsBlanked-refl s)
set-IsBlanked (x ∷ s) (suc i) = (inl refl, set-IsBlanked s i)

pub set-IsBlanked_after : (s t : Text) (i : ℕ) → IsBlanked s t → IsBlanked s (set t i blank)
set-IsBlanked_after s t i h = IsBlanked-trans s t (set t i blank) h (set-IsBlanked t i)

-- A pass that blanks some bytes and does not go back.
abbrev pub Advances : Text → ℕ → Text × ℕ → Type 0
Advances s i r = IsBlanked s (r.0) × (i ≤ r.1)

pub length-IsBlanked : (s t : Text) → IsBlanked s t → length t ≡ length s
unfolding IsBlanked
length-IsBlanked [] [] h = refl
length-IsBlanked [] (y ∷ t) h = elim h [ ]
length-IsBlanked (x ∷ s) [] h = elim h [ ]
length-IsBlanked (x ∷ s) (y ∷ t) (h, hs) = ground (arith, length-IsBlanked s t hs)

pub get_elem?-end : (s : Text) (i : ℕ) → length s ≤ i → get_elem? s i ≡ none
get_elem?-end [] i h = refl
get_elem?-end (x ∷ s) zero h = absurd (omega arith)
get_elem?-end (x ∷ s) (suc i) h = get_elem?-end s i (omega arith)

-- The loop ends within its fuel, and as `Advances` says.
abbrev pub Ends : Text → ℕ → Option (Text × ℕ) → Type 0
Ends s i none = ⊥
Ends s i (some r) = Advances s i r

pub Ends-after :
    (s t : Text) (i j : ℕ) (o : Option (Text × ℕ)) → IsBlanked s t → i ≤ j → Ends t j o → Ends s i o
Ends-after s t i j none b le h = h
Ends-after s t i j (some (u, k)) b le (h, le') = (IsBlanked-trans s t u b h, omega (arith, le, le'))

pub Ends-bind :
    (s : Text) (i : ℕ) (o : Option (Text × ℕ)) (f : Text × ℕ → Option (Text × ℕ))
    → Ends s i o
    → ((t : Text) (j : ℕ) → IsBlanked s t → i ≤ j → Ends t j (f (t, j)))
    → Ends s i (o >>= f)
Ends-bind s i none f h k = h
Ends-bind s i (some (t, j)) f (b, le) k = Ends-after s t i j (f (t, j)) b le (k t j b le)

-- A loop whose fuel exceeds what is left of the text.
abbrev pub IsFuelled : ℕ → Text → ℕ → Type 0
IsFuelled fuel s i = (0 < fuel) × (length s < fuel + i)

-- It is so in the next pass, at a later position of the text or of a text with more blanks.
pub IsFuelled-later :
    (fuel : ℕ) (s t : Text) (i j c : ℕ)
    → IsFuelled (suc fuel) s i
    → get_elem? s i ≡ some c
    → IsBlanked s t
    → suc i ≤ j
    → IsFuelled fuel t j
IsFuelled-later fuel s t i j c (_, h) e b le =
    let lt = get_elem?-lt s i c e in
    let same = length-IsBlanked s t b in (omega (arith, lt, h), omega (arith, lt, h, same, le))
