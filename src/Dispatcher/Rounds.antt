-- ===== src/Dispatcher/Rounds.antt =====
-- How long `sniffer` of core/xray/app/mydispatcher/default.go may take.
use v2sp.Prelude.{
  Option-cases, nat_eq, is_some, ℤ, ◌+ℤ◌, ◌-ℤ◌, ◌≤ℤ◌, ◌<ℤ◌, int_eq, pos, negsuc, text_eq, ℕ, ◌*◌,
  ◌^◌, ◌≡◌, refl, inl, inr, Bool, true, false, Option, none, some, List, [], ◌∷◌, arith,
}
use v2sp.Sniffers.{Network, SniffContext, Sniffed, Sniffer, sniff_metadata}
use v2sp.Dispatcher.Sniffing.{
  CachedReader, Round, SniffState, timed_out, stop_round, sniff_round, sniff_content,
  sniff_connection, first_deadline, join_results,
}

-- The time that the rounds take together.
unfoldable pub total_time : List Round → ℤ
total_time [] = pos 0
total_time (round ∷ rest) = round.elapsed +ℤ total_time rest

sub-le : (a e t : ℤ) → a ≤ℤ (e +ℤ t) → (a -ℤ e) ≤ℤ t
unfolding ◌+ℤ◌ ◌-ℤ◌
sub-le (pos a) (pos e) (pos t) h = ground arith
sub-le (pos a) (pos e) (negsuc t) h = ground arith
sub-le (pos a) (negsuc e) (pos t) h = ground arith
sub-le (pos a) (negsuc e) (negsuc t) h = ground arith
sub-le (negsuc a) (pos e) (pos t) h = ground arith
sub-le (negsuc a) (pos e) (negsuc t) h = ground arith
sub-le (negsuc a) (negsuc e) (pos t) h = ground arith
sub-le (negsuc a) (negsuc e) (negsuc t) h = ground arith

-- A round that goes on has used up its time, and has some left.
sniff_round-deadline :
    (c : SniffContext) (network : Network) (capacity : ℕ) (round : Round) (s : SniffState)
    → (sniff_round c network capacity round s).1 ≡ none
    → let s' = (sniff_round c network capacity round s).0 in
      (s'.cache_deadline ≡ (s.cache_deadline -ℤ round.elapsed)) × (pos 0 <ℤ s'.cache_deadline)
unfolding sniff_round stop_round timed_out
sniff_round-deadline c network capacity round s h = ground arith

sniff_content-ends :
    (c : SniffContext) (network : Network) (capacity : ℕ) (rounds : List Round) (s : SniffState)
    → pos 0 <ℤ s.cache_deadline
    → s.cache_deadline ≤ℤ total_time rounds
    → is_some (sniff_content c network capacity rounds s).1 ≡ true
unfolding sniff_content total_time
sniff_content-ends c network capacity [] s h e = ground arith
sniff_content-ends c network capacity (round ∷ rest) s h e =
    elim (Option-cases (sniff_round c network capacity round s).1) [
      | inl goes_on ↦
          let (spent, later) = sniff_round-deadline c network capacity round s goes_on in
          let s' = (sniff_round c network capacity round s).0 in
          rw (sniff_content, goes_on)
            (sniff_content-ends c network capacity rest s' later
              (rw spent (sub-le s.cache_deadline round.elapsed (total_time rest) e)))
      | inr (r, h') ↦ rw (sniff_content, h')
    ]

is_some-joined :
    (m : Sniffed) (o : Option Sniffed)
    → is_some o ≡ true
    → is_some {A = Sniffed} (elim o [ none ↦ none | some r ↦ some (join_results m r) ]) ≡ true
is_some-joined m none h = ground arith
is_some-joined m (some r) h = refl

-- The sniffing of a connection is over, with a result or an error, in the round in which the reads
-- have taken 200 milliseconds together, if not before, whatever the sniffers answer; in particular
-- one that asks for more data is not asked for ever.
pub sniff_connection-ends :
    (c : SniffContext) (network : Network) (capacity : ℕ) (metadata_only : Bool)
    (rounds : List Round) (new : Sniffer) (reader : CachedReader)
    → pos (200 * 10 ^ 6) ≤ℤ total_time rounds
    → is_some (sniff_connection c network capacity metadata_only rounds new reader).1 ≡ true
unfolding sniff_connection
sniff_connection-ends c network capacity true rounds new reader h = refl
sniff_connection-ends c network capacity false rounds new reader h =
    is_some-joined (sniff_metadata c new).1
      (sniff_content c network capacity rounds (record {
        reader = reader;
        sniffer = (sniff_metadata c new).0;
        cache_deadline = first_deadline;
        total_attempt = 0;
      })).1
      (sniff_content-ends c network capacity rounds _ (omega arith) h)
