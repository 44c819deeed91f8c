-- ===== src/Limiter/Rules.antt =====
-- limiter/rule.go: the audit rules of a node. Go's regular expressions are parameters: compiling a
-- pattern, which may fail, and matching a text.
use v2sp.Prelude.{
  if◌then◌else◌, nat_eq, int_eq, contains, Text, text_eq, ◌≡◌, refl, Bool, true, false, ◌||◌,
  Option, none, some, List, [], ◌∷◌, arith,
}
use v2sp.Panel
use v2sp.Limiter.{Limiter}

module _ {Regexp : Type 0} (compile : Text → Option Regexp) where
  -- The loop of `UpdateRule`, which skips a pattern that does not compile.
  unfoldable pub compile_all : List Text → List Regexp
  compile_all [] = []
  compile_all (p ∷ ps) = elim (compile p) [ none ↦ compile_all ps | some re ↦ re ∷ compile_all ps ]

module _ {Regexp : Type 0} (matches : Regexp → Text → Bool) where
  -- The loop of `CheckDomainRule`, which stops at the first match.
  unfoldable pub match_any : List Regexp → Text → Bool
  match_any [] destination = false
  match_any (r ∷ rs) destination =
      let rest = match_any rs destination in if matches r destination then true else rest

module _ {Regexp : Type 0} (compile : Text → Option Regexp) (matches : Regexp → Text → Bool) where
  -- Some pattern of the list compiles and matches.
  unfoldable pub some_pattern_matches : List Text → Text → Bool
  some_pattern_matches [] destination = false
  some_pattern_matches (p ∷ ps) destination =
      elim (compile p) [ none ↦ false | some re ↦ matches re destination ]
      || some_pattern_matches ps destination

  pub compile_all-matches :
      (ps : List Text) (destination : Text)
      → match_any matches (compile_all compile ps) destination ≡ some_pattern_matches ps destination
  unfolding match_any compile_all some_pattern_matches
  compile_all-matches [] destination = refl
  compile_all-matches (p ∷ ps) destination = ground (arith, compile_all-matches ps destination)

module _ {Regexp Bucket : Type 0} where
  unfoldable pub check_protocol_rule : Limiter Regexp Bucket → Text → Bool
  check_protocol_rule l protocol = contains l.protocol_rules protocol

  unfoldable pub update_rule :
      (Text → Option Regexp) → Panel.Rules → Limiter Regexp Bucket → Limiter Regexp Bucket
  update_rule compile rule l = record l {
    domain_rules = compile_all compile rule.regexp;
    protocol_rules = rule.protocol;
  }

  unfoldable pub check_domain_rule : (Regexp → Text → Bool) → Limiter Regexp Bucket → Text → Bool
  check_domain_rule matches l destination = match_any matches l.domain_rules destination

  module _ (compile : Text → Option Regexp) (matches : Regexp → Text → Bool) where
    -- After an update the two checks reject what the new rules name, and nothing else: a destination
    -- that some pattern which compiles matches, and a protocol on the list.
    pub update_rule_lem :
        (rule : Panel.Rules) (l : Limiter Regexp Bucket) (destination protocol : Text)
        → (check_domain_rule matches (update_rule compile rule l) destination
            ≡ some_pattern_matches compile matches rule.regexp destination)
          × (check_protocol_rule (update_rule compile rule l) protocol
              ≡ contains rule.protocol protocol)
    unfolding update_rule check_domain_rule check_protocol_rule
    update_rule_lem rule l destination protocol =
        (compile_all-matches compile matches rule.regexp destination, refl)
