-- ===== src/ServerInfo/Loaded.antt =====
-- What the configuration is when it has been loaded.
use ya_ircd.Prelude.{
  ℕ, suc, ◌+◌, ◌≡◌, ◌⊎◌, refl, inl, inr, true, false, List, [], ◌++◌, Option, none, some,
  Bool-cases, Option-cases, length,
}
use ya_ircd.Memory.{Heap, Grants, malloc, free}
use ya_ircd.ServerInfo.{read_motd_file}
use ya_ircd.ServerInfo.Chunks.{chunks}
use ya_ircd.ServerInfo.Motd.{twice, read_motd_file-Entered}
use ya_ircd.ServerInfo.Config.{
  Group, Setting, ConfigFile, ServerConfig, fields, has_groups, found_path, read_motd,
  load_server_info, cloak_key, get_cloak_key_length,
}

-- A group, a key, or the path of the message of the day, is missing in the file.
pub data Lacks (cfg : ConfigFile) : Type 0 where
  no_key1 : cfg.lookup_string Setting.key1 ≡ none → Lacks cfg
  no_key2 : cfg.lookup_string Setting.key2 ≡ none → Lacks cfg
  no_key3 : cfg.lookup_string Setting.key3 ≡ none → Lacks cfg
  no_group : (group : Group) → cfg.has_group group ≡ false → Lacks cfg
  no_path : cfg.lookup_string Setting.motd_path ≡ none → Lacks cfg

-- The keys of the file with their lengths.
pub record Keyed (cfg : ConfigFile) (info : ServerConfig) : Type 0 where
  pub key1 : cfg.lookup_string Setting.key1 ≡ some (cloak_key info 1)
  pub key2 : cfg.lookup_string Setting.key2 ≡ some (cloak_key info 2)
  pub key3 : cfg.lookup_string Setting.key3 ≡ some (cloak_key info 3)
  pub length1 : get_cloak_key_length info 1 ≡ length (cloak_key info 1)
  pub length2 : get_cloak_key_length info 2 ≡ length (cloak_key info 2)
  pub length3 : get_cloak_key_length info 3 ≡ length (cloak_key info 3)

-- The groups that hold the settings, but for that of the message of the day.
abbrev pub Grouped : ConfigFile → Type 0
Grouped cfg =
    (cfg.has_group Group.serverinfo ≡ true)
    × (cfg.has_group Group.admin ≡ true)
    × (cfg.has_group Group.cloak ≡ true)
    × (cfg.has_group Group.timeouts ≡ true)
    × (cfg.has_group Group.standard ≡ true)
    × (cfg.has_group Group.secure ≡ true)
    × (cfg.has_group Group.channels ≡ true)

-- There is no memory for the message of the day, or its file cannot be opened.
abbrev pub NoMotd : (List ℕ → Option (List ℕ)) → ConfigFile → Heap → Type 0
NoMotd fopen cfg h =
    ((malloc h).0 ≡ false)
    ⊎ ((path : List ℕ) × (cfg.lookup_string Setting.motd_path ≡ some path) × (fopen path ≡ none))

-- The first entries of the file at the path, and all of them with enough memory.
abbrev pub MotdOf : (List ℕ → Option (List ℕ)) → ConfigFile → Heap → Option (List (List ℕ)) → Type 0
MotdOf fopen cfg h motd =
    (path file : List ℕ) × (entries missing : List (List ℕ)) × (cfg.lookup_string Setting.motd_path
      ≡ some path)
    × (fopen path ≡ some file)
    × (motd ≡ some entries)
    × (chunks (length file + 1) file ≡ entries ++ missing)
    × (Grants (suc (twice (suc (length file)))) h.answers → missing ≡ [])

-- How loading a configuration file ends. The message of the day is none, or the first entries of
-- the file at its path.
abbrev pub LoadEnds :
    (List ℕ → Option (List ℕ)) → ConfigFile → Heap → Option (Option ServerConfig × Heap) → Type 0
LoadEnds fopen cfg h none = Lacks cfg
LoadEnds fopen cfg h (some (none, h')) = (malloc h).0 ≡ false
LoadEnds fopen cfg h (some (some info, h')) =
    Grouped cfg
    × Keyed cfg info
    × (((info.motd ≡ none) × NoMotd fopen cfg (malloc h).1)
        ⊎ MotdOf fopen cfg (malloc h).1 info.motd)

module _ (fopen : List ℕ → Option (List ℕ)) (cfg : ConfigFile) where
  keyed :
      (k1 k2 k3 : List ℕ) (motd : Option (List (List ℕ)))
      → cfg.lookup_string Setting.key1 ≡ some k1
      → cfg.lookup_string Setting.key2 ≡ some k2
      → cfg.lookup_string Setting.key3 ≡ some k3
      → Keyed cfg (fields cfg k1 k2 k3 motd)
  keyed k1 k2 k3 motd e1 e2 e3 = record {
    key1 = e1;
    key2 = e2;
    key3 = e3;
    length1 = refl;
    length2 = refl;
    length3 = refl;
  }

  -- The message of the day, on the heap behind the block of the configuration.
  pub data MotdEnds (h : Heap) (out : Option (Option (List (List ℕ)) × Heap)) : Type 0 where
    lost : Lacks cfg → out ≡ none → MotdEnds h out
    unread : (h' : Heap) → out ≡ some (none, h') → NoMotd fopen cfg h → MotdEnds h out
    read :
        (entries : List (List ℕ)) (h' : Heap)
        → out ≡ some (some entries, h')
        → MotdOf fopen cfg h (some entries)
        → MotdEnds h out

  read_from :
      (h : Heap) (path : List ℕ)
      → cfg.has_group Group.files ≡ true
      → cfg.lookup_string Setting.motd_path ≡ some path
      → (malloc h).0 ≡ true
      → MotdEnds h (read_motd fopen cfg h)
  unfolding read_motd read_motd_file
  read_from h path group there got = elim (Option-cases (fopen path)) [
    | inl closed ↦
        MotdEnds.unread (free (malloc h).1)
          (rw (read_motd, group, there, closed, read_motd_file, got) refl)
          (inr (path, there, closed))
    | inr (file, opened) ↦
        let (entries, missing, h', done, first, blocks, all) = read_motd_file-Entered file h got in
        MotdEnds.read entries h' (rw (read_motd, group, there, opened) done)
          (path, file, entries, missing, there, opened, refl, first, all)
  ]

  path_lost : (h : Heap) → Lacks cfg → found_path cfg ≡ none → MotdEnds h (read_motd fopen cfg h)
  unfolding read_motd
  path_lost h lacks missing = elim (Bool-cases (malloc h).0) [
    | inl got ↦ MotdEnds.lost lacks (rw (read_motd, missing, got) refl)
    | inr failed ↦ MotdEnds.unread (malloc h).1 (rw (read_motd, missing, failed) refl) (inl failed)
  ]

  read_motd-MotdEnds : (h : Heap) → MotdEnds h (read_motd fopen cfg h)
  unfolding read_motd read_motd_file
  read_motd-MotdEnds h = elim (Bool-cases (cfg.has_group Group.files)) [
    | inr no_files ↦ path_lost h (Lacks.no_group Group.files no_files) (rw no_files refl)
    | inl group ↦ elim (Option-cases (cfg.lookup_string Setting.motd_path)) [
      | inl missing ↦ path_lost h (Lacks.no_path missing) (rw (group, missing) refl)
      | inr (path, there) ↦ elim (Bool-cases (malloc h).0) [
        | inr failed ↦
            MotdEnds.unread (malloc h).1 (rw (read_motd, group, there, read_motd_file, failed) refl)
              (inl failed)
        | inl got ↦ read_from h path group there got
      ]
    ]
  ]

  loaded :
      (k1 k2 k3 : List ℕ) (h : Heap)
      → Grouped cfg
      → has_groups cfg ≡ true
      → cfg.lookup_string Setting.key1 ≡ some k1
      → cfg.lookup_string Setting.key2 ≡ some k2
      → cfg.lookup_string Setting.key3 ≡ some k3
      → (malloc h).0 ≡ true
      → LoadEnds fopen cfg h (load_server_info fopen (some cfg) h)
  unfolding load_server_info
  loaded k1 k2 k3 h all groups e1 e2 e3 got =
      let out = load_server_info fopen (some cfg) h in
      elim (read_motd-MotdEnds (malloc h).1) [
        | lost missing e ↦
            let e' : out ≡ none = rw (load_server_info, got, groups, e1, e2, e3, e) refl in
            rw e' missing
        | unread h' e why ↦
            let e' : out ≡ some (some (fields cfg k1 k2 k3 none), h') =
              rw (load_server_info, got, groups, e1, e2, e3, e) refl in
            rw e' (all, keyed k1 k2 k3 none e1 e2 e3, inl (refl, why))
        | read entries h' e found ↦
            let e' : out ≡ some (some (fields cfg k1 k2 k3 (some entries)), h') =
              rw (load_server_info, got, groups, e1, e2, e3, e) refl in
            rw e' (all, keyed k1 k2 k3 (some entries) e1 e2 e3, inr found)
      ]

  -- A group that is missing, or all of them.
  groups_lem :
      ((group : Group) × (cfg.has_group group ≡ false) × (has_groups cfg ≡ false))
      ⊎ (Grouped cfg × (has_groups cfg ≡ true))
  unfolding has_groups
  groups_lem = elim (Bool-cases (cfg.has_group Group.serverinfo)) [
    | inr a ↦ inl (Group.serverinfo, a, rw (has_groups, a) refl)
    | inl a ↦ elim (Bool-cases (cfg.has_group Group.admin)) [
      | inr b ↦ inl (Group.admin, b, rw (has_groups, a, b) refl)
      | inl b ↦ elim (Bool-cases (cfg.has_group Group.cloak)) [
        | inr c ↦ inl (Group.cloak, c, rw (has_groups, a, b, c) refl)
        | inl c ↦ elim (Bool-cases (cfg.has_group Group.timeouts)) [
          | inr d ↦ inl (Group.timeouts, d, rw (has_groups, a, b, c, d) refl)
          | inl d ↦ elim (Bool-cases (cfg.has_group Group.standard)) [
            | inr e ↦ inl (Group.standard, e, rw (has_groups, a, b, c, d, e) refl)
            | inl e ↦ elim (Bool-cases (cfg.has_group Group.secure)) [
              | inr f ↦ inl (Group.secure, f, rw (has_groups, a, b, c, d, e, f) refl)
              | inl f ↦ elim (Bool-cases (cfg.has_group Group.channels)) [
                | inr g ↦ inl (Group.channels, g, rw (has_groups, a, b, c, d, e, f, g) refl)
                | inl g ↦ inr ((a, b, c, d, e, f, g), rw (has_groups, a, b, c, d, e, f, g) refl)
              ]
            ]
          ]
        ]
      ]
    ]
  ]

  -- Loading a configuration file that could be read: it is loaded, and then the groups of its
  -- settings are all there, its keys are the three keys of the file with the lengths that these
  -- have, and the message of the day is none, for want of memory or of the file at its path, or
  -- the first entries of that file, all of them with enough memory; or there was no memory for the
  -- configuration; or the call is not defined, and then a group, one of the keys or the path of the
  -- message of the day is missing in the file.
  pub load_server_info-LoadEnds :
      (h : Heap) → LoadEnds fopen cfg h (load_server_info fopen (some cfg) h)
  unfolding load_server_info
  load_server_info-LoadEnds h =
      let out = load_server_info fopen (some cfg) h in
      elim (Bool-cases (malloc h).0) [
        | inr failed ↦
            let e : out ≡ some (none, (malloc h).1) = rw (load_server_info, failed) refl in
            rw e failed
        | inl got ↦ elim groups_lem [
          | inl (group, absent, gs) ↦
              let e : out ≡ none = rw (load_server_info, got, gs) refl in
              rw e (Lacks.no_group group absent)
          | inr (all, gs) ↦ elim (Option-cases (cfg.lookup_string Setting.key1)) [
            | inl no1 ↦
                let e : out ≡ none = rw (load_server_info, got, gs, no1) refl in
                rw e (Lacks.no_key1 no1)
            | inr (k1, e1) ↦ elim (Option-cases (cfg.lookup_string Setting.key2)) [
              | inl no2 ↦
                  let e : out ≡ none = rw (load_server_info, got, gs, e1, no2) refl in
                  rw e (Lacks.no_key2 no2)
              | inr (k2, e2) ↦ elim (Option-cases (cfg.lookup_string Setting.key3)) [
                | inl no3 ↦
                    let e : out ≡ none = rw (load_server_info, got, gs, e1, e2, no3) refl in
                    rw e (Lacks.no_key3 no3)
                | inr (k3, e3) ↦ loaded k1 k2 k3 h all gs e1 e2 e3 got
              ]
            ]
          ]
        ]
      ]
