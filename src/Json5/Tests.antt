-- ===== src/Json5/Tests.antt =====
-- The removal of comments at concrete texts.
use v2sp.Prelude.{Text, some, nat_eq, int_eq, length, codes, text_eq, ◌≡◌, refl}
use v2sp.Json5.{
  is_nl, blank_line, blank_block, consume_line, consume_block, consume_comment, skip_string,
  skip_comma, prep_step, prep_loop, prep,
}
use v2sp.Json5.Blanked.{IsBlanked}
use v2sp.Json5.Lines.{IsPlain, IsOneLine, prep_lem}

prep_example :
    ((t : Text) × (prep (codes "[1,]//x") ≡ some t)
      × IsBlanked (codes "[1,]//x") t
      × (length t ≡ 7))
    × (prep (codes "[1]//x") ≡ some (codes "[1]   "))
unfolding codes IsPlain IsOneLine is_nl
prep_example =
    prep_lem (codes "[1,]//x") (codes "[1]") (codes "x")
      ((refl, refl, refl), ((refl, refl, refl), ((refl, refl, refl), tt))) (refl, tt)

trailing_comma : prep (codes "[1,]//x") ≡ some (codes "[1 ]   ")
unfolding prep prep_loop prep_step skip_string skip_comma consume_comment consume_line consume_block
    blank_line blank_block is_nl codes
trailing_comma = refl

-- The bug: the byte behind a star within a comment is kept.
star_keeps_next : prep (codes "/*a*b*/1") ≡ some (codes "    b  1")
unfolding prep prep_loop prep_step skip_string skip_comma consume_comment consume_line consume_block
    blank_line blank_block is_nl codes
star_keeps_next = refl

-- The bug: a comment that ends in two stars goes on, and keeps the second star.
two_stars_go_on : prep (codes "/***/1") ≡ some (codes "   *  ")
unfolding prep prep_loop prep_step skip_string skip_comma consume_comment consume_line consume_block
    blank_line blank_block is_nl codes
two_stars_go_on = refl
