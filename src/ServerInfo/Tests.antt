-- ===== src/ServerInfo/Tests.antt =====
-- A configuration file, and a message of the day of two lines.
use ya_ircd.Prelude.{
  ℕ, zero, suc, ◌+◌, ◌≡◌, refl, arith, pos, Bool, true, List, [], ◌∷◌, ◌++◌, map, Option, some,
  length,
}
use ya_ircd.Memory.{Heap, Grants, malloc, answer}
use ya_ircd.ReadMsgs.Lines.{lines, line_cons}
use ya_ircd.ServerInfo.{read_motd_file, drop_end, fgets}
use ya_ircd.ServerInfo.Chunks.{chunks, AreShort, file_lines}
use ya_ircd.ServerInfo.Motd.{twice, read_motd_file-Entered, read_motd_file-file_lines}
use ya_ircd.ServerInfo.Config.{ConfigFile, load_server_info}
use ya_ircd.ServerInfo.Loaded.{LoadEnds, load_server_info-LoadEnds}

abbrev yes : ℕ → List Bool
yes zero = []
yes (suc n) = true ∷ yes n

abbrev memory : Heap
memory = record { answers = yes 20; allocs = 0; frees = 0 }

-- `Hi`, with both characters at its end, and `yo` without a newline.
abbrev file : List ℕ
file = b'H' ∷ b'i' ∷ b'\r' ∷ b'\n' ∷ b'y' ∷ b'o' ∷ []

array_got : (malloc memory).0 ≡ true
unfolding malloc answer
array_got = refl

file-AreShort : AreShort (file_lines file)
unfolding lines line_cons
file-AreShort = omega arith

read_motd_file-Entered_example :
    (entries missing : List (List ℕ)) × (h' : Heap) × (read_motd_file (some file) memory
      ≡ some (some entries, h'))
    × (chunks (length file + 1) file ≡ entries ++ missing)
    × (h'.allocs + 0 ≡ 0 + h'.frees + length entries + 1)
    × (Grants (suc (twice (suc (length file)))) memory.answers → missing ≡ [])
read_motd_file-Entered_example = read_motd_file-Entered file memory array_got

read_motd_file-file_lines_example :
    (h' : Heap) × (read_motd_file (some file) memory
      ≡ some (some (map (drop_end b'\r') (file_lines file)), h'))
read_motd_file-file_lines_example = read_motd_file-file_lines file memory file-AreShort tt

two_lines : map (drop_end b'\r') (file_lines file) ≡ (b'H' ∷ b'i' ∷ []) ∷ (b'y' ∷ b'o' ∷ []) ∷ []
unfolding lines line_cons drop_end
two_lines = refl

abbrev eights : ℕ → List ℕ
eights zero = b'\n' ∷ []
eights (suc n) = b'8' ∷ eights n

-- A line of 80 characters fills the buffer: its newline is an entry of its own.
empty_entry : length (chunks 82 (eights 80)) ≡ 2
unfolding fgets
empty_entry = refl

abbrev config : ConfigFile
config = record {
  has_group = λ g. true;
  lookup_int = λ s. some (pos 10);
  lookup_string = λ s. some (b'x' ∷ []);
  lookup_float = λ s. some 60;
}

abbrev fopen : List ℕ → Option (List ℕ)
fopen path = some file

load_server_info-LoadEnds_example :
    LoadEnds fopen config memory (load_server_info fopen (some config) memory)
load_server_info-LoadEnds_example = load_server_info-LoadEnds fopen config memory
