-- ===== src/Registration/Owned.antt =====
-- Which entries of the list of clients hold one client: its nickname's, and no other.
use ya_ircd.Prelude.{
  ℕ, ◌≡◌, ◌≢◌, refl, sym, ap, ◌∙◌, inl, inr, true, false, List, none, some, arith, Bool-cases,
  if◌then◌else◌,
}
use ya_ircd.Trie.{Trie, find_word_trie}
use ya_ircd.Trie.Keys.{same_key, is_word}
use ya_ircd.Trie.Laws.{IsTrie}
use ya_ircd.ClientList.{nick_alphabet}
use ya_ircd.ClientList.Clients.{client_list_add, client_list_delete}
use ya_ircd.WordList.{YaircdNode, released, ◌>>=◌, pure}
use ya_ircd.WordList.Map.{Added, list_add-Added}
use ya_ircd.WordList.Deletion.{list_delete-Deleted}
use ya_ircd.WordList.Update.{ListCode, ListState, node_of, ok, list_delete_nolock}
use ya_ircd.Registration.{CString, null, freed, string}
use ya_ircd.Trie.Alike.{find_word_trie-same_key, is_word-same_key}
use ya_ircd.Registration.Keys.{list_add-alphabet, list_delete-alphabet}
use ya_ircd.Registration.Accepted.{list_add-is_word}

-- A well-formed list over the alphabet of nicknames.
pub record IsRegistry (t : Trie (YaircdNode ℕ)) : Type 0 where
  pub trie : IsTrie (YaircdNode ℕ) t
  pub nicks : t.alphabet ≡ nick_alphabet

-- The client at `self` is found under `nick`, and only there.
pub record Named (self : ℕ) (nick : List ℕ) (t : Trie (YaircdNode ℕ)) : Type 0 where
  pub there : find_word_trie t nick ≡ some (node_of self)
  pub only :
      (q : List ℕ) → find_word_trie t q ≡ some (node_of self) → same_key nick_alphabet nick q ≡ true

abbrev pub Absent : ℕ → Trie (YaircdNode ℕ) → Type 0
Absent self t = (q : List ℕ) → find_word_trie t q ≢ some (node_of self)

abbrev pub Owned : ℕ → CString → Trie (YaircdNode ℕ) → Type 0
Owned self null t = Absent self t
Owned self freed t = ⊥
Owned self (string nick) t = Named self nick t

-- What `client_list_add` does, for the client at `self`.
pub record AddedSelf (self : ℕ) (nick : List ℕ) (s : ListState ℕ) : Type 0 where
  pub ret : ListCode
  pub after : ListState ℕ
  pub done : client_list_add self nick released s ≡ some (ret, released, after)
  pub kept : IsRegistry after.trie
  pub effect : Added self nick s.trie ret after.trie

pub client_list_add_lem :
    (self : ℕ) (nick : List ℕ) (s : ListState ℕ) → IsRegistry s.trie → AddedSelf self nick s
unfolding client_list_add
client_list_add_lem self nick s v =
    let (ret, s', e, added, still, _) = list_add-Added self nick s v.trie in
    record {
      ret = ret;
      after = s';
      done = e;
      kept = record { trie = still; nicks = list_add-alphabet self nick s e ∙ v.nicks };
      effect = added;
    }

-- What it has done when it returns 0.
pub record Fresh (self : ℕ) (nick : List ℕ) (t t' : Trie (YaircdNode ℕ)) : Type 0 where
  pub absent : find_word_trie t nick ≡ none
  pub valid : is_word nick_alphabet nick ≡ true
  pub others :
      (q : List ℕ)
      → find_word_trie t' q
        ≡ (if same_key nick_alphabet nick q then some (node_of self) else find_word_trie t q)

pub AddedSelf-Fresh :
    (self : ℕ) (nick : List ℕ) (s : ListState ℕ)
    → IsRegistry s.trie
    → (a : AddedSelf self nick s) → a.ret ≡ ok
    → Fresh self nick s.trie a.after.trie
unfolding client_list_add
AddedSelf-Fresh self nick s v a e =
    let effect = rw e at a.effect in
    let done = rw e at a.done in
    record {
      absent = effect.0;
      valid = rw v.nicks at (list_add-is_word self nick s done);
      others = λ q.
          effect.1 q
          ∙ ap (λ a. if same_key a nick q then some (node_of self) else find_word_trie s.trie q)
              v.nicks;
    }

-- What `client_list_delete` does.
pub record DeletedSelf (self : ℕ) (nick : List ℕ) (s : ListState ℕ) : Type 0 where
  pub after : ListState ℕ
  pub done : client_list_delete (λ c. nick) self released s ≡ some (tt, released, after)
  pub kept : IsRegistry after.trie
  pub others :
      (q : List ℕ)
      → find_word_trie after.trie q
        ≡ (if same_key nick_alphabet nick q then none else find_word_trie s.trie q)

pub client_list_delete_lem :
    (self : ℕ) (nick : List ℕ) (s : ListState ℕ) {n : YaircdNode ℕ}
    → IsRegistry s.trie
    → find_word_trie s.trie nick ≡ some n
    → DeletedSelf self nick s
unfolding client_list_delete
client_list_delete_lem self nick s v there =
    let (done, _, still, others, _) = list_delete-Deleted nick s v.trie in
    let done' = rw there at done in
    record {
      after = (list_delete_nolock nick s).1;
      done = ap (λ m. ((λ l s'. m) >>= (λ _. pure tt)) released s) done';
      kept = record { trie = still; nicks = list_delete-alphabet nick s done' ∙ v.nicks };
      others = λ q.
          others q ∙ ap (λ a. if same_key a nick q then none else find_word_trie s.trie q) v.nicks;
    }

module _ (self : ℕ) where
  -- A client without a nickname takes one.
  pub Fresh-Named :
      (nick : List ℕ) (t t' : Trie (YaircdNode ℕ))
      → Absent self t
      → Fresh self nick t t'
      → Named self nick t'
  Fresh-Named nick t t' absent fresh = record {
    there = fresh.others nick ∙ rw (is_word-same_key nick_alphabet nick fresh.valid) refl;
    only = λ q found. elim (Bool-cases (same_key nick_alphabet nick q)) [
      | inl same ↦ same
      | inr other ↦ absurd (absent q (sym (fresh.others q ∙ rw other refl) ∙ found))
    ];
  }

  -- The old nickname is still there when the new one has been added.
  pub Fresh-old :
      (nick old : List ℕ) (t t' : Trie (YaircdNode ℕ))
      → Named self old t
      → Fresh self nick t t'
      → find_word_trie t' old ≡ some (node_of self)
  Fresh-old nick old t t' named fresh =
      fresh.others old ∙ elim (Bool-cases (same_key nick_alphabet nick old)) [
        | inl same ↦ rw same refl
        | inr other ↦ rw other named.there
      ]

  -- When it has been deleted, the client is found under the new one.
  pub Fresh-renamed :
      (nick old : List ℕ) (t t' t'' : Trie (YaircdNode ℕ))
      → IsRegistry t
      → Named self old t
      → Fresh self nick t t'
      → ((q : List ℕ)
          → find_word_trie t'' q
            ≡ (if same_key nick_alphabet old q then none else find_word_trie t' q))
      → Named self nick t''
  Fresh-renamed nick old t t' t'' v named fresh deleted =
      let differ : same_key nick_alphabet old nick ≡ false =
        elim (Bool-cases (same_key nick_alphabet old nick)) [
          | inr other ↦ other
          | inl same ↦
              let same' = ap (λ a. same_key a old nick) v.nicks ∙ same in
              let one = find_word_trie-same_key t old nick same' in
              let both = sym named.there ∙ one ∙ fresh.absent in absurd (ground arith)
        ] in
      record {
        there =
            deleted nick
            ∙ rw differ
                (fresh.others nick ∙ rw (is_word-same_key nick_alphabet nick fresh.valid) refl);
        only = λ q found. elim (Bool-cases (same_key nick_alphabet old q)) [
          | inl gone ↦
              let none_there : find_word_trie t'' q ≡ none = deleted q ∙ rw gone refl in
              absurd (ground arith)
          | inr kept ↦ elim (Bool-cases (same_key nick_alphabet nick q)) [
            | inl same ↦ same
            | inr other ↦
                let was = sym (deleted q ∙ rw kept (fresh.others q ∙ rw other refl)) ∙ found in
                let clash = sym kept ∙ named.only q was in absurd (ground arith)
          ]
        ];
      }

  -- A client that has been deleted under its nickname is not found.
  pub deleted-Absent :
      (nick : List ℕ) (t t' : Trie (YaircdNode ℕ))
      → Named self nick t
      → ((q : List ℕ)
          → find_word_trie t' q
            ≡ (if same_key nick_alphabet nick q then none else find_word_trie t q))
      → Absent self t'
  deleted-Absent nick t t' named deleted q found =
      elim (Bool-cases (same_key nick_alphabet nick q)) [
        | inl gone ↦
            let none_there : find_word_trie t' q ≡ none = deleted q ∙ rw gone refl in
            absurd (ground arith)
        | inr kept ↦
            let was = sym (deleted q ∙ rw kept refl) ∙ found in
            let clash = sym kept ∙ named.only q was in absurd (ground arith)
      ]
