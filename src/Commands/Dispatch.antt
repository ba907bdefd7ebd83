-- ===== src/Commands/Dispatch.antt =====
-- Which handler runs.
use ya_ircd.Prelude.{
  ℕ, ◌≡◌, refl, ◌∙◌, ap, true, false, List, [], ◌∷◌, Option, none, some, Option-cases, inl, inr,
  arith, if◌then◌else◌,
}
use ya_ircd.Commands.{
  CmdFunc, send_err_notregistered, send_err_unknowncommand, run, cmds_registered, cmds_unregistered,
  commands_alphabet, is_valid, char_to_pos, add_commands, cmds_init, interpret_msg,
}
use ya_ircd.Memory.{Heap}
use ya_ircd.Trie.{Trie, Alphabet, init_trie, add_word_trie, find_word_trie}
use ya_ircd.Trie.Unchanged.{Status-cases}
use ya_ircd.Trie.Invariant.{IsAlphabet}
use ya_ircd.Trie.Keys.{same_key}
use ya_ircd.Trie.Laws.{
  IsTrie, init_trie-IsTrie, init_trie-alphabet, find_word_trie-add_word_trie, word_trie-IsTrie,
}

-- The last entry of the table that is the same key as the word, or what was there before.
abbrev pub entry : Alphabet → List CmdFunc → List ℕ → Option CmdFunc → Option CmdFunc
entry a [] word found = found
entry a (c ∷ array) word found =
    entry a array word (if same_key a c.command word then some c else found)

commands_alphabet-IsAlphabet : IsAlphabet commands_alphabet
unfolding is_valid char_to_pos
commands_alphabet-IsAlphabet = record { in_range = λ c h. ground arith; small = omega arith }

add_word_trie-alphabet :
    (t : Trie CmdFunc) (word : List ℕ) (x : Option CmdFunc) (h : Heap)
    → (add_word_trie t word x h).1.alphabet ≡ t.alphabet
unfolding add_word_trie
add_word_trie-alphabet t word x h = refl

add_commands-entry :
    (t : Trie CmdFunc) (array : List CmdFunc) (h : Heap) (word : List ℕ)
    → IsTrie CmdFunc t
    → (add_commands t array h).0 ≡ true
    → find_word_trie (add_commands t array h).1 word
      ≡ entry t.alphabet array word (find_word_trie t word)
unfolding add_commands
add_commands-entry t [] h word v e = refl
add_commands-entry t (c ∷ array) h word v e =
    let (ret, t', h') = add_word_trie t c.command (some c) h in
    let still = (word_trie-IsTrie t c.command (some c) h v).0 in
    let same = add_word_trie-alphabet t c.command (some c) h in
    elim (Status-cases ret) [
      | inr failed ↦ absurd (ground arith)
      | inl done ↦
          let later = add_commands-entry t' array h' word still (ground arith) in
          let now = find_word_trie-add_word_trie t c.command (some c) h word v done in
          rw (add_commands, done) (later ∙ rw (same, now) refl)
    ]

-- A table in a trie that `init_trie` has made.
filled :
    (h h' : Heap) (array : List CmdFunc) (word : List ℕ) {t t' : Trie CmdFunc}
    → (init_trie commands_alphabet h).0 ≡ some t
    → (add_commands t array h').0 ≡ true
    → (add_commands t array h').1 ≡ t'
    → find_word_trie t' word ≡ entry commands_alphabet array word none
filled h h' array word {t} {t'} made all same =
    let (v, empty) = init_trie-IsTrie commands_alphabet h commands_alphabet-IsAlphabet made in
    rw (← same) (
      add_commands-entry t array h' word v all
      ∙ ap (λ a. entry a array word (find_word_trie t word))
          (init_trie-alphabet commands_alphabet h made)
      ∙ ap (entry commands_alphabet array word) (empty word))

-- If `cmds_init` returns 0, then `interpret_msg` runs the handler that the table of the registered,
-- or of the unregistered, has for the command, compared by the positions of its letters, in which
-- upper and lower case are one; for any other command it sends the error reply.
pub interpret_msg-entry :
    (h : Heap) (cmd : List ℕ) {registered unregistered : Trie CmdFunc}
    → (cmds_init h).0 ≡ some (true, registered, unregistered)
    → (interpret_msg registered unregistered true cmd
        ≡ elim (entry commands_alphabet cmds_registered cmd none) [
          | none ↦ send_err_unknowncommand cmd
          | some c ↦ run c.f
        ])
      × (interpret_msg registered unregistered false cmd
          ≡ elim (entry commands_alphabet cmds_unregistered cmd none) [
            | none ↦ send_err_notregistered
            | some c ↦ run c.f
          ])
unfolding cmds_init interpret_msg
interpret_msg-entry h cmd {registered} {unregistered} e =
    let (_, h1) = init_trie {V = CmdFunc} commands_alphabet h in
    let h2 = (init_trie {V = CmdFunc} commands_alphabet h1).1 in
    elim (Option-cases (init_trie {V = CmdFunc} commands_alphabet h).0) [
      | inl no_first ↦ absurd (ground arith)
      | inr (r, first) ↦ elim (Option-cases (init_trie {V = CmdFunc} commands_alphabet h1).0) [
        | inl no_second ↦ absurd (ground arith)
        | inr (u, second) ↦
            let h3 = (add_commands u cmds_unregistered h2).2 in
            let us =
              filled h1 h2 cmds_unregistered cmd {t' = unregistered} second (ground arith)
                (ground arith) in
            let rs =
              filled h h3 cmds_registered cmd {t' = registered} first (ground arith)
                (ground arith) in
            (rw rs refl, rw us refl)
      ]
    ]
