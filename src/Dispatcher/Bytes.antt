-- ===== src/Dispatcher/Bytes.antt =====
-- The bytes of a connection that is sniffed: `cachedReader` in
-- core/xray/app/mydispatcher/default.go.
use v2sp.Prelude.{
  Option-cases, nat_eq, option_or, int_eq, length, Text, text_eq, ℕ, zero, suc, ◌≤◌, ◌<◌, ◌≡◌, refl,
  ap, ◌∙◌, inl, inr, Bool, true, false, Option, none, some, List, [], ◌∷◌, ◌++◌, arith,
}
use v2sp.Sniffers.{Network, SniffContext, Sniffer}
use v2sp.Dispatcher.Sniffing.{
  CachedReader, read_source, fill_cache, read_internal, read_multi_buffer, Round, SniffState,
  stop_round, sniff_round, sniff_content, sniff_connection,
}

-- The bytes that the reads of a pipe still return, in order.
unfoldable pub joined : List (Option Text) → Text
joined [] = []
joined (none ∷ rest) = joined rest
joined (some bytes ∷ rest) = bytes ++ joined rest

-- The bytes that the outbound has yet to read.
unfoldable pub bytes_left : CachedReader → Text
unfolding joined
bytes_left r = option_or r.cached [] ++ joined r.source

++-assoc : (xs ys zs : Text) → ((xs ++ ys) ++ zs) ≡ (xs ++ (ys ++ zs))
++-assoc [] ys zs = refl
++-assoc (x ∷ xs) ys zs = ap (λ s. x ∷ s) (++-assoc xs ys zs)

fill_cache-from :
    (capacity : ℕ) (c : Option Text) (source : List (Option Text))
    → let r : CachedReader = record { source = source; cached = c } in
      bytes_left (fill_cache capacity r).0 ≡ bytes_left r
unfolding fill_cache read_source bytes_left joined
fill_cache-from capacity c [] = refl
fill_cache-from capacity c (none ∷ rest) = refl
fill_cache-from capacity c (some [] ∷ rest) = refl
fill_cache-from capacity c (some (b ∷ bytes) ∷ rest) =
    ++-assoc (option_or c []) (b ∷ bytes) (joined rest)

fill_cache-keeps :
    (capacity : ℕ) (r : CachedReader) → bytes_left (fill_cache capacity r).0 ≡ bytes_left r
fill_cache-keeps capacity r = fill_cache-from capacity r.cached r.source

sniff_round-keeps :
    (c : SniffContext) (network : Network) (capacity : ℕ) (round : Round) (s : SniffState)
    → bytes_left (sniff_round c network capacity round s).0.reader ≡ bytes_left s.reader
unfolding sniff_round stop_round
sniff_round-keeps c network capacity round s = ground (arith, fill_cache-keeps capacity s.reader)

sniff_content-keeps :
    (c : SniffContext) (network : Network) (capacity : ℕ) (rounds : List Round) (s : SniffState)
    → bytes_left (sniff_content c network capacity rounds s).0.reader ≡ bytes_left s.reader
unfolding sniff_content
sniff_content-keeps c network capacity [] s = refl
sniff_content-keeps c network capacity (round ∷ rest) s =
    elim (Option-cases (sniff_round c network capacity round s).1) [
      | inl h ↦
          rw (sniff_content, h)
            (sniff_content-keeps c network capacity rest (sniff_round c network capacity round s).0
              ∙ sniff_round-keeps c network capacity round s)
      | inr (r, h) ↦ rw (sniff_content, h) (sniff_round-keeps c network capacity round s)
    ]

pub sniff_connection-keeps_bytes :
    (c : SniffContext) (network : Network) (capacity : ℕ) (metadata_only : Bool)
    (rounds : List Round) (new : Sniffer) (reader : CachedReader)
    → bytes_left (sniff_connection c network capacity metadata_only rounds new reader).0
      ≡ bytes_left reader
unfolding sniff_connection
sniff_connection-keeps_bytes c network capacity true rounds new reader = refl
sniff_connection-keeps_bytes c network capacity false rounds new reader =
    sniff_content-keeps c network capacity rounds _

read_multi_buffer-from :
    (c : Option Text) (source : List (Option Text))
    → let r : CachedReader = record { source = source; cached = c } in
      let (r', mb) = read_multi_buffer r in (option_or mb [] ++ bytes_left r') ≡ bytes_left r
unfolding read_multi_buffer read_internal read_source bytes_left joined
read_multi_buffer-from (some (b ∷ mb)) source = refl
read_multi_buffer-from none [] = refl
read_multi_buffer-from none (none ∷ rest) = refl
read_multi_buffer-from none (some bytes ∷ rest) = refl
read_multi_buffer-from (some []) [] = refl
read_multi_buffer-from (some []) (none ∷ rest) = refl
read_multi_buffer-from (some []) (some bytes ∷ rest) = refl

-- What a read of the outbound returns, followed by what is left, is what was left before.
pub read_multi_buffer-takes_bytes :
    (r : CachedReader)
    → (option_or (read_multi_buffer r).1 [] ++ bytes_left (read_multi_buffer r).0) ≡ bytes_left r
read_multi_buffer-takes_bytes r = read_multi_buffer-from r.cached r.source

-- The bytes that a number of reads return, whatever errors come between them.
unfoldable pub drain : ℕ → CachedReader → Text
drain zero r = []
drain (suc n) r =
    let rest = drain n (read_multi_buffer r).0 in option_or (read_multi_buffer r).1 [] ++ rest

drain-source :
    (n : ℕ) (source : List (Option Text))
    → length source ≤ n
    → drain n (record { source = source; cached = none }) ≡ joined source
unfolding drain joined read_multi_buffer read_internal read_source
drain-source zero [] h = refl
drain-source zero (r ∷ rest) h = elim h [ ]
drain-source (suc n) [] h = drain-source n [] (omega arith)
drain-source (suc n) (none ∷ rest) h = drain-source n rest (omega arith)
drain-source (suc n) (some bytes ∷ rest) h =
    ap (λ s. bytes ++ s) (drain-source n rest (omega arith))

drain-empty :
    (n : ℕ) (source : List (Option Text))
    → length source ≤ n
    → drain n (record { source = source; cached = some [] }) ≡ joined source
unfolding drain joined read_multi_buffer read_internal read_source
drain-empty zero [] h = refl
drain-empty zero (r ∷ rest) h = elim h [ ]
drain-empty (suc n) [] h = drain-empty n [] (omega arith)
drain-empty (suc n) (none ∷ rest) h = drain-empty n rest (omega arith)
drain-empty (suc n) (some bytes ∷ rest) h = ap (λ s. bytes ++ s) (drain-empty n rest (omega arith))

drain-from :
    (n : ℕ) (c : Option Text) (source : List (Option Text))
    → length source < n
    → let r : CachedReader = record { source = source; cached = c } in drain n r ≡ bytes_left r
unfolding drain bytes_left read_multi_buffer read_internal
drain-from n none source h = drain-source n source (omega arith)
drain-from n (some []) source h = drain-empty n source (omega arith)
drain-from zero (some (b ∷ mb)) source h = elim h [ ]
drain-from (suc n) (some (b ∷ mb)) source h =
    ap (λ s. b ∷ mb ++ s) (drain-source n source (omega arith))

-- Sniffing and then reading gives the bytes of the connection back, all of them, in order and once:
-- reads beyond the number of those that the pipe still has ready return what it had before the
-- sniffing, whatever the sniffers answer and whichever reads fail.
pub drain-sniff_connection :
    (c : SniffContext) (network : Network) (capacity : ℕ) (metadata_only : Bool)
    (rounds : List Round) (new : Sniffer) (reader : CachedReader) (n : ℕ)
    → length (sniff_connection c network capacity metadata_only rounds new reader).0.source < n
    → drain n (sniff_connection c network capacity metadata_only rounds new reader).0
      ≡ bytes_left reader
drain-sniff_connection c network capacity metadata_only rounds new reader n h =
    let after = (sniff_connection c network capacity metadata_only rounds new reader).0 in
    drain-from n after.cached after.source h
    ∙ sniff_connection-keeps_bytes c network capacity metadata_only rounds new reader
