-- ===== src/Sniffers/Order.antt =====
-- The order in which `Sniff` and `SniffMetadata` ask the sniffers.
use v2sp.Prelude.{
  if◌then◌else◌, Bool-cases, nat_eq, option_or, int_eq, is_empty, Text, text_eq, ◌≡◌, refl, ap, inl,
  inr, true, false, not, ◌||◌, Option, none, some, List, [], ◌∷◌, ◌++◌, arith,
}
use v2sp.Sniffers.{
  Network, network_beq, SniffContext, SnifferEntry, Sniffer, Sniffed, found, nothing, failed,
  panicked, no_clue, is_no_clue, give_up, sniff_loop, sniff, need_more_data, sniffing_timeout,
  unknown_content, context_done, other_error,
}

-- The first result that ends a sniffing: a result, or a panic.
abbrev pub first_hit : List Sniffed → Option Sniffed
first_hit [] = none
first_hit (found r ∷ rest) = some (found r)
first_hit (panicked ∷ rest) = some panicked
first_hit (nothing ∷ rest) = first_hit rest
first_hit (failed e ∷ rest) = first_hit rest

-- The entries of a payload's network, in order.
abbrev pub entries_of : Network → List SnifferEntry → List SnifferEntry
entries_of network [] = []
entries_of network (si ∷ rest) =
    let others = entries_of network rest in
    if si.metadata_sniffer || not (network_beq si.network network) then others else si ∷ others

abbrev pub answers_of : SniffContext → Text → List SnifferEntry → List Sniffed
answers_of c payload [] = []
answers_of c payload (si ∷ rest) =
    (si.protocol_sniffer c (some payload)).0 ∷ answers_of c payload rest

abbrev pub without_clue : SniffContext → Text → List SnifferEntry → List SnifferEntry
without_clue c payload [] = []
without_clue c payload (si ∷ rest) =
    let others = without_clue c payload rest in
    if is_no_clue (si.protocol_sniffer c (some payload)).0 then si ∷ others else others

append-nil : (xs : Sniffer) → (xs ++ []) ≡ xs
append-nil [] = refl
append-nil (x ∷ xs) = ap (λ ys. x ∷ ys) (append-nil xs)

append-step :
    (xs : Sniffer) (x : SnifferEntry) (ys : Sniffer) → ((xs ++ (x ∷ [])) ++ ys) ≡ (xs ++ (x ∷ ys))
append-step [] x ys = refl
append-step (z ∷ xs) x ys = ap (λ zs. z ∷ zs) (append-step xs x ys)

module _ (c : SniffContext) (payload : Text) (network : Network) where
  -- What a sniffing that asks the entries, in order, comes to.
  abbrev described : List SnifferEntry → Sniffer → Sniffer → Sniffer × Sniffed
  described asked pending s = elim (first_hit (answers_of c payload asked)) [
    | some r ↦ (s, r)
    | none ↦ give_up (pending ++ without_clue c payload asked) s
  ]

  entries_of-skipped :
      (si : SnifferEntry) (rest : List SnifferEntry)
      → (si.metadata_sniffer || not (network_beq si.network network)) ≡ true
      → entries_of network (si ∷ rest) ≡ entries_of network rest
  entries_of-skipped si rest h = rw h

  entries_of-asked :
      (si : SnifferEntry) (rest : List SnifferEntry)
      → (si.metadata_sniffer || not (network_beq si.network network)) ≡ false
      → entries_of network (si ∷ rest) ≡ (si ∷ entries_of network rest)
  entries_of-asked si rest h = rw h

  -- One entry that is asked, whose answer is `r`.
  sniff_loop-asked :
      (si : SnifferEntry) (rest asked : List SnifferEntry) (pending s : Sniffer)
      → (si.metadata_sniffer || not (network_beq si.network network)) ≡ false
      → ((pending' : Sniffer)
          → sniff_loop c payload network rest pending' s ≡ described asked pending' s)
      → (r : Sniffed) → (si.protocol_sniffer c (some payload)).0 ≡ r
      → sniff_loop c payload network (si ∷ rest) pending s ≡ described (si ∷ asked) pending s
  unfolding sniff_loop is_no_clue
  sniff_loop-asked si rest asked pending s ask ih (found r) e = rw (ask, e)
  sniff_loop-asked si rest asked pending s ask ih panicked e = rw (ask, e)
  sniff_loop-asked si rest asked pending s ask ih nothing e = ground (arith, ih pending)
  sniff_loop-asked si rest asked pending s ask ih (failed no_clue) e =
      ground
        (arith, ih (pending ++ (si ∷ [])), append-step pending si (without_clue c payload asked))
  sniff_loop-asked si rest asked pending s ask ih (failed need_more_data) e =
      ground (arith, ih pending)
  sniff_loop-asked si rest asked pending s ask ih (failed sniffing_timeout) e =
      ground (arith, ih pending)
  sniff_loop-asked si rest asked pending s ask ih (failed unknown_content) e =
      ground (arith, ih pending)
  sniff_loop-asked si rest asked pending s ask ih (failed context_done) e =
      ground (arith, ih pending)
  sniff_loop-asked si rest asked pending s ask ih (failed other_error) e =
      ground (arith, ih pending)

  sniff_loop-described :
      (entries : List SnifferEntry) (pending s : Sniffer)
      → sniff_loop c payload network entries pending s
        ≡ described (entries_of network entries) pending s
  unfolding sniff_loop is_no_clue
  sniff_loop-described [] pending s = rw (append-nil pending)
  sniff_loop-described (si ∷ rest) pending s =
      elim (Bool-cases (si.metadata_sniffer || not (network_beq si.network network))) [
        | inl skip ↦
            rw (entries_of-skipped si rest skip) (rw (skip, sniff_loop-described rest pending s))
        | inr ask ↦ rw (entries_of-asked si rest ask) (
            sniff_loop-asked si rest (entries_of network rest) pending s ask
              (λ pending'. sniff_loop-described rest pending' s)
              (si.protocol_sniffer c (some payload)).0 refl)
      ]

  -- `Sniff` answers with the first result, in order, of the content sniffers of the payload's network,
  -- a panic included; when none has one, the sniffers without a clue are the ones kept for the next
  -- payload, and the error is `ErrNoClue` if there are any and `errUnknownContent` otherwise.
  pub sniff_lem :
      (s : Sniffer)
      → sniff c payload network s ≡ elim (first_hit (answers_of c payload (entries_of network s))) [
        | some r ↦ (s, r)
        | none ↦
            if is_empty (without_clue c payload (entries_of network s))
            then (s, failed unknown_content)
            else (without_clue c payload (entries_of network s), failed no_clue)
      ]
  unfolding sniff give_up
  sniff_lem s = sniff_loop-described s [] s

  -- The result alone, which depends on the entries that are asked.
  abbrev pub answer : List SnifferEntry → Sniffed
  answer asked =
      option_or (first_hit (answers_of c payload asked))
        (if is_empty (without_clue c payload asked) then failed unknown_content else failed no_clue)

  pub sniff-answer : (s : Sniffer) → (sniff c payload network s).1 ≡ answer (entries_of network s)
  sniff-answer s = rw (sniff_lem s) (ground arith)
