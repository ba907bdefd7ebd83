-- ===== src/ServerInfo.antt =====
-- src/serverinfo.c: the message of the day and the configuration. What libconfig finds in the file
-- is a parameter.
pub mod Chunks
pub mod Motd
pub mod Config
pub mod Loaded
mod Tests
use ya_ircd.Prelude.{
  ℕ, zero, suc, ◌+◌, ◌-◌, ◌*◌, Bool, true, false, not, ◌&&◌, List, [], ◌∷◌, ◌++◌, Option, none,
  some, ◌==◌, ltb, leb, if◌then◌else◌, length, get_or,
}
use ya_ircd.Memory.{Heap, malloc, free}
use ya_ircd.Cloak.{CloaksInfo}
use ya_ircd.Client.Ping.{PingConfig}

abbrev pub initial_motd_lines : ℕ
initial_motd_lines = 64

abbrev pub max_motd_line_length : ℕ
max_motd_line_length = 80

-- What `fgets` reads into a buffer for `n` characters and the `'\0'`, and what is left of the file.
unfoldable pub fgets : ℕ → List ℕ → List ℕ × List ℕ
fgets zero file = ([], file)
fgets (suc n) [] = ([], [])
fgets (suc n) (c ∷ file) =
    let (line, rest) = fgets n file in if c == b'\n' then (c ∷ [], file) else (c ∷ line, rest)

-- The string in a buffer, which ends at the first `'\0'`.
unfoldable pub string_in : List ℕ → List ℕ
string_in [] = []
string_in (c ∷ cs) = if c == 0 then [] else c ∷ string_in cs

-- Without its last character, if that is `e`.
unfoldable pub drop_end : ℕ → List ℕ → List ℕ
drop_end e [] = []
drop_end e (c ∷ []) = if c == e then [] else c ∷ []
drop_end e (c ∷ d ∷ cs) = c ∷ drop_end e (d ∷ cs)

-- `line_buf` behind the removal of the end of the line.
abbrev pub trimmed : List ℕ → List ℕ
trimmed line_buf = drop_end b'\r' (drop_end b'\n' (string_in line_buf))

unfoldable pub drop_last : List (List ℕ) → List (List ℕ)
drop_last [] = []
drop_last (l ∷ []) = []
drop_last (l ∷ m ∷ ls) = l ∷ drop_last (m ∷ ls)

-- The loop of `read_motd_file` with so many rounds left, on the rest of the file, the entries that
-- are written, and the places of the array: the entries in front of the `NULL`. The outcome `none`
-- is a write outside the array, or no rounds left. `realloc` frees the old array if it gets a new
-- one.
unfoldable pub read_entries : ℕ → List ℕ → List (List ℕ) → ℕ → Heap → Option (List (List ℕ) × Heap)
unfolding fgets string_in drop_end drop_last
read_entries zero file motd places h = none
read_entries (suc n) [] motd places h = if ltb (length motd) places then some (motd, h) else none
read_entries (suc n) (c ∷ file) motd places h =
    let (line_buf, rest) = fgets max_motd_line_length (c ∷ file) in
    let full = leb places (length motd + 1) in
    let (grown, h1) = malloc h in
    let h2 = if full then free h1 else h in
    let places' = if full then 2 * places else places in
    let (got, h3) = malloc h2 in
    let next = read_entries n rest (motd ++ (trimmed line_buf ∷ [])) places' h3 in
    if full && not grown
    then some (drop_last motd, free h1)
    else if not (ltb (length motd) places')
    then none
    else if not got
    then some (motd, h3)
    else next

-- `none` inside is `NULL`; `motd_file` is what `fopen` opens.
unfoldable pub read_motd_file : Option (List ℕ) → Heap → Option (Option (List (List ℕ)) × Heap)
unfolding read_entries
read_motd_file motd_file h =
    let (got, h1) = malloc h in
    let read : Option (Option (List (List ℕ)) × Heap) = elim motd_file [
      | none ↦ some (none, free h1)
      | some file ↦ elim (read_entries (length file + 1) file [] initial_motd_lines h1) [
        | none ↦ none
        | some (motd, h2) ↦ some (some motd, h2)
      ]
    ] in
    if got then read else some (none, h1)
