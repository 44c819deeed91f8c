-- ===== src/Dispatcher/Sniffing.antt =====
-- `cachedReader` and `sniffer` in core/xray/app/mydispatcher/default.go: the first bytes of a
-- connection are read for the sniffers and kept for the outbound. What the reads of the pipe return is
-- a list; `none` is an error, the end of the list too. A read returns bytes or an error, as xray-core's
-- pipe does: of a reader that returned both, the code would drop the bytes.
use v2sp.Prelude.{
  leb, if◌then◌else◌, nat_eq, option_or, ℤ, ◌-ℤ◌, leb_ℤ, int_eq, pos, is_empty, Text, text_eq, ℕ,
  zero, suc, ◌*◌, ◌^◌, Bool, ◌||◌, Option, none, some, List, [], ◌∷◌, ◌++◌,
}
use v2sp.Sniffers.{
  Network, composite_result, no_clue, need_more_data, sniffing_timeout, context_done, other_error,
  Sniffed, found, failed, panicked, SniffContext, Sniffer, sniff, sniff_metadata,
}

pub record CachedReader : Type 0 where
  pub source : List (Option Text)
  pub cached : Option Text

unfoldable pub take : ℕ → Text → Text
take zero s = []
take (suc n) [] = []
take (suc n) (c ∷ s) = c ∷ take n s

-- A read of the pipe.
unfoldable pub read_source : List (Option Text) → List (Option Text) × Option Text
read_source [] = ([], none)
read_source (r ∷ rest) = (rest, r)

-- `Cache`: the payload for the sniffers, at most `capacity` bytes, or none on an error.
unfoldable pub fill_cache : ℕ → CachedReader → CachedReader × Option Text
unfolding read_source take
fill_cache capacity r =
    let (source, mb) = read_source r.source in
    elim mb [
      | none ↦ (record r { source = source }, none)
      | some bytes ↦
          let merged = option_or r.cached [] ++ bytes in
          (
            record { source = source; cached = if is_empty bytes then r.cached else some merged },
            some (take capacity merged),
          )
    ]

unfoldable pub read_internal : CachedReader → CachedReader × Option Text
read_internal r = elim r.cached [
  | none ↦ (r, none)
  | some [] ↦ (r, none)
  | some (b ∷ mb) ↦ (record r { cached = none }, some (b ∷ mb))
]

-- `ReadMultiBuffer` and `ReadMultiBufferTimeout`; `none` is an error.
unfoldable pub read_multi_buffer : CachedReader → CachedReader × Option Text
unfolding read_internal read_source
read_multi_buffer r =
    let (r', mb) = read_internal r in
    elim mb [
      | some bytes ↦ (r', some bytes)
      | none ↦ let (source, read) = read_source r'.source in (record r' { source = source }, read)
    ]

-- `Interrupt`, but for the interrupt of the pipe itself.
unfoldable pub interrupt_cache : CachedReader → CachedReader
interrupt_cache r = elim r.cached [ none ↦ r | some mb ↦ record r { cached = none } ]

-- What the loop of `sniffer` finds in one round: whether the context is done, and the time that the
-- read takes.
pub record Round : Type 0 where
  pub is_done : Bool
  pub elapsed : ℤ

pub record SniffState : Type 0 where
  pub reader : CachedReader
  pub sniffer : Sniffer
  pub cache_deadline : ℤ
  pub total_attempt : ℕ

-- The end of the loop's body.
unfoldable pub timed_out : SniffState → Bool
timed_out s = leb 2 s.total_attempt || leb_ℤ s.cache_deadline (pos 0)

unfoldable pub stop_round : SniffState → SniffState × Option Sniffed
unfolding timed_out
stop_round s = (s, if timed_out s then some (failed sniffing_timeout) else none)

-- The body of the loop; the result is none when the loop goes on.
unfoldable pub sniff_round :
    SniffContext → Network → ℕ → Round → SniffState → SniffState × Option Sniffed
unfolding fill_cache stop_round
sniff_round c network capacity round s =
    let (reader, read) = fill_cache capacity s.reader in
    let s1 : SniffState = record s {
      reader = reader;
      cache_deadline = s.cache_deadline -ℤ round.elapsed;
    } in
    let more : SniffState = record s1 { total_attempt = suc s1.total_attempt } in
    if round.is_done then (s, some (failed context_done)) else elim read [
      | none ↦ (record s { reader = reader }, some (failed other_error))
      | some [] ↦ stop_round more
      | some (b ∷ payload) ↦
          let (sniffer, result) = sniff c (b ∷ payload) network s.sniffer in
          elim result [
            | failed no_clue ↦ stop_round (record more { sniffer = sniffer })
            | failed need_more_data ↦ stop_round (record s1 { sniffer = sniffer })
            | r ↦ (record s1 { sniffer = sniffer }, some r)
          ]
    ]

-- The loop, over the rounds that the connection lives through.
unfoldable pub sniff_content :
    SniffContext → Network → ℕ → List Round → SniffState → SniffState × Option Sniffed
unfolding sniff_round
sniff_content c network capacity [] s = (s, none)
sniff_content c network capacity (round ∷ rest) s =
    let (s', result) = sniff_round c network capacity round s in
    elim result [ some r ↦ (s', some r) | none ↦ sniff_content c network capacity rest s' ]

abbrev pub first_deadline : ℤ
first_deadline = pos (200 * 10 ^ 6)

-- How `sniffer` joins the result of the metadata and that of the content. Neither sniffing gives a nil
-- result with a nil error.
unfoldable pub join_results : Sniffed → Sniffed → Sniffed
join_results (failed e) content = content
join_results (found m) (failed e) = found m
join_results (found m) (found r) = found (composite_result m r)
join_results metaresult content = panicked

-- `sniffer`; none while the loop goes on.
unfoldable pub sniff_connection :
    SniffContext
    → Network
    → ℕ
    → Bool
    → List Round
    → Sniffer
    → CachedReader
    → CachedReader × Option Sniffed
unfolding sniff_content join_results
sniff_connection c network capacity metadata_only rounds new reader =
    let (pending, metaresult) = sniff_metadata c new in
    let (s, content) = sniff_content c network capacity rounds (record {
      reader = reader;
      sniffer = pending;
      cache_deadline = first_deadline;
      total_attempt = 0;
    }) in
    if metadata_only
    then (reader, some metaresult)
    else (s.reader, elim content [ none ↦ none | some r ↦ some (join_results metaresult r) ])
