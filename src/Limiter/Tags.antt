-- ===== src/Limiter/Tags.antt =====
-- format.UserTag as a key: which tags and uuids share one.
use v2sp.Prelude.{
  nat_eq, int_eq, Text, text_beq, text_eq, contains_byte, ℕ, ◌≡◌, refl, ap, ◌≢◌, false, ◌||◌, [],
  ◌∷◌, ◌++◌, arith,
}
use v2sp.Limiter.{user_tag}

pub user_tag_beq : (tag u v : Text) → text_beq (user_tag tag u) (user_tag tag v) ≡ text_beq u v
unfolding user_tag text_beq
user_tag_beq [] u v = ground arith
user_tag_beq (c ∷ tag) u v = ground (arith, user_tag_beq tag u v)

contains_byte-append :
    (b : ℕ) (s t : Text) → contains_byte b (s ++ t) ≡ (contains_byte b s || contains_byte b t)
unfolding contains_byte
contains_byte-append b [] t = refl
contains_byte-append b (c ∷ s) t = ground (arith, contains_byte-append b s t)

no_bar : (s u v : Text) → contains_byte b'|' u ≡ false → u ≢ s ++ (b'|' ∷ v)
unfolding contains_byte
no_bar s u v h e = ground (arith, contains_byte-append b'|' s (b'|' ∷ v), ap (contains_byte b'|') e)

-- Two users whose uuids hold no bar have one key only if both the tag and the uuid agree.
pub user_tag-injective :
    (s t u v : Text)
    → contains_byte b'|' u ≡ false
    → contains_byte b'|' v ≡ false
    → user_tag s u ≡ user_tag t v
    → (s ≡ t) × (u ≡ v)
unfolding user_tag
user_tag-injective [] [] u v hu hv e = ground arith
user_tag-injective [] (c ∷ t) u v hu hv e = absurd (no_bar t u v hu (ground arith))
user_tag-injective (c ∷ s) [] u v hu hv e = absurd (no_bar s v u hv (ground arith))
user_tag-injective (c ∷ s) (d ∷ t) u v hu hv e =
    ground (arith, user_tag-injective s t u v hu hv (ground arith))
