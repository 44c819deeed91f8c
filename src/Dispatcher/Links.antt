-- ===== src/Dispatcher/Links.antt =====
-- core/xray/app/mydispatcher/linkmanager.go: the connections of one user, oldest first. A
-- `*ManagedWriter` and a `*list.Element` are named by numbers; the `element` fields of the writers of
-- a manager, which only its methods touch, are kept with it. `container/list` is what its
-- documentation says: an element that `Init` dropped is not in the list.
use v2sp.Prelude.{
  nat_eq, ℤ, int_eq, length, Map, lookup, insert, delete, text_eq, ℕ, suc, none, some, List, [],
  ◌∷◌, ◌++◌,
}

-- What a call does to the pipes.
pub data Effect (W R : Type 0) : Type 0 where
  close : W → Effect W R
  interrupt : R → Effect W R

pub record ManagedWriter (W : Type 0) : Type 0 where
  pub writer : W
  pub create_time : ℤ

pub record LinkEntry (W R : Type 0) : Type 0 where
  pub id : ℕ
  pub managed : ManagedWriter W
  pub reader : R

pub record LinkManager (W R : Type 0) : Type 0 where
  pub links : Map ℕ (LinkEntry W R)
  pub index : Map ℕ (LinkEntry W R)
  pub element : Map ℕ ℕ
  pub next_element : ℕ

module _ {W R : Type 0} where
  unfoldable pub new_link_manager : LinkManager W R
  new_link_manager = record { links = []; index = []; element = []; next_element = 0 }

  unfoldable pub add_link : ℕ → ManagedWriter W → R → LinkManager W R → LinkManager W R
  add_link id w reader m =
      let entry : LinkEntry W R = record { id = id; managed = w; reader = reader } in
      record {
        links = m.links ++ ((m.next_element, entry) ∷ []);
        index = insert id entry m.index;
        element = insert id m.next_element m.element;
        next_element = suc m.next_element;
      }

  unfoldable pub remove_writer : ℕ → LinkManager W R → LinkManager W R
  remove_writer id m = elim (lookup id m.element) [
    | none ↦ record m { index = delete id m.index }
    | some e ↦ record m {
      links = delete e m.links;
      element = delete id m.element;
      index = delete id m.index;
    }
  ]

  -- `Close` of a managed writer.
  unfoldable pub close_writer :
      ℕ → ManagedWriter W → LinkManager W R → LinkManager W R × List (Effect W R)
  close_writer id w m = (remove_writer id m, close w.writer ∷ [])

  -- The loop of `CloseAll`.
  unfoldable pub close_links : Map ℕ (LinkEntry W R) → List (Effect W R)
  close_links [] = []
  close_links ((e, entry) ∷ rest) =
      close entry.managed.writer ∷ interrupt entry.reader ∷ close_links rest

  unfoldable pub close_all : LinkManager W R → LinkManager W R × List (Effect W R)
  close_all m = (record m { links = []; index = [] }, close_links m.links)

  unfoldable pub get_connection_count : LinkManager W R → ℕ
  get_connection_count m = length m.links
