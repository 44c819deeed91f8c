-- ===== src/Prelude/Maps.antt =====
-- Go's maps and `sync.Map`s as association lists. A loop over a map takes the entries in the order
-- of the list; a map stands for any order of its entries.
use Prim.Native.Nat.{suc}
use mathlib.Core.Path.{◌≡◌, refl}
use mathlib.Core.List.{List, [], ◌∷◌}
use mathlib.Core.Option.{Option, none, some}
use native.Mathlib.Omega.{arith}
use v2sp.Prelude.Bools.{Eq, ◌==◌, if◌then◌else◌, is_some, eq_refl}
use v2sp.Prelude.Lists.{length}

abbrev pub Map {ℓ κ} : Type ℓ → Type κ → Type (ℓ ⊔ κ)
Map K V = List (K × V)

module _ {ℓ κ} {K : Type ℓ} {V : Type κ} ⦃e : Eq K⦄ where
  unfoldable pub lookup : K → Map K V → Option V
  lookup k [] = none
  lookup k ((other, v) ∷ rest) = if other == k then some v else lookup k rest

  unfoldable pub insert : K → V → Map K V → Map K V
  insert k v [] = (k, v) ∷ []
  insert k v ((other, w) ∷ rest) =
      if other == k then (k, v) ∷ rest else (other, w) ∷ insert k v rest

  unfoldable pub delete : K → Map K V → Map K V
  delete k [] = []
  delete k ((other, v) ∷ rest) =
      let kept = delete k rest in if other == k then kept else (other, v) ∷ kept

  -- No key has two entries.
  abbrev pub Distinct : Map K V → Type κ
  Distinct [] = Unit
  Distinct ((k, v) ∷ rest) = (lookup k rest ≡ none) × Distinct rest

  pub lookup-insert :
      (k other : K) (v : V) (rest : Map K V)
      → lookup other (insert k v rest) ≡ (if k == other then some v else lookup other rest)
  unfolding lookup insert
  lookup-insert k other v [] = refl
  lookup-insert k other v ((first, w) ∷ rest) = ground (
    arith,
    e.same_iff k other,
    e.same_iff first k,
    e.same_iff first other,
    lookup-insert k other v rest,
  )

  pub lookup-delete :
      (k other : K) (rest : Map K V)
      → lookup other (delete k rest) ≡ (if k == other then none else lookup other rest)
  unfolding lookup delete
  lookup-delete k other [] = ground arith
  lookup-delete k other ((first, w) ∷ rest) = ground (
    arith,
    e.same_iff k other,
    e.same_iff first k,
    e.same_iff first other,
    lookup-delete k other rest,
  )

  pub lookup-insert_self : (k : K) (v : V) (rest : Map K V) → lookup k (insert k v rest) ≡ some v
  lookup-insert_self k v rest = rw (lookup-insert k k v rest, eq_refl k)

  pub lookup-delete_self : (k : K) (rest : Map K V) → lookup k (delete k rest) ≡ none
  lookup-delete_self k rest = rw (lookup-delete k k rest, eq_refl k)

  pub length-insert :
      (k : K) (v : V) (rest : Map K V)
      → length (insert k v rest)
        ≡ (if is_some (lookup k rest) then length rest else suc (length rest))
  unfolding lookup insert
  length-insert k v [] = refl
  length-insert k v ((first, w) ∷ rest) = ground (arith, length-insert k v rest)

  pub insert-Distinct :
      (k : K) (v : V) (rest : Map K V) → Distinct rest → Distinct (insert k v rest)
  unfolding lookup insert
  insert-Distinct k v [] d = (refl, tt)
  insert-Distinct k v ((first, w) ∷ rest) d = ground (
    arith,
    e.same_iff first k,
    e.same_iff k first,
    lookup-insert k first v rest,
    insert-Distinct k v rest d.1,
  )

  pub delete-Distinct : (k : K) (rest : Map K V) → Distinct rest → Distinct (delete k rest)
  unfolding lookup delete
  delete-Distinct k [] d = tt
  delete-Distinct k ((first, w) ∷ rest) d =
      ground (arith, lookup-delete k first rest, delete-Distinct k rest d.1)

  pub delete_absent : (k : K) (rest : Map K V) → lookup k rest ≡ none → delete k rest ≡ rest
  unfolding lookup delete
  delete_absent k [] h = refl
  delete_absent k ((first, w) ∷ rest) h = ground (arith, delete_absent k rest)

  pub length-delete :
      (k : K) (rest : Map K V)
      → Distinct rest
      → length rest
        ≡ (if is_some (lookup k rest) then suc (length (delete k rest)) else length (delete k rest))
  unfolding lookup delete
  length-delete k [] d = refl
  length-delete k ((first, w) ∷ rest) d =
      ground (arith, e.same_iff first k, delete_absent k rest, length-delete k rest d.1)
