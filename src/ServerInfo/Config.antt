-- ===== src/ServerInfo/Config.antt =====
-- src/serverinfo.c: the fields that the configuration file fills, and the functions that read them.
use ya_ircd.Prelude.{
  ℕ, ℤ, Bool, true, false, ◌&&◌, List, [], ◌∷◌, Option, none, some, if◌then◌else◌, length, get_or,
  ◌-◌,
}
use ya_ircd.Memory.{Heap, malloc}
use ya_ircd.ServerInfo.{read_motd_file}

infixl 5 ◌>>=◌
abbrev ◌>>=◌ : {A B : Type 0} → Option A → (A → Option B) → Option B
none >>= f = none
some a >>= f = f a

-- The names of the settings that are looked up, each in its group.
pub data Setting : Type 0 where
  serv_id serv_name serv_desc net_name certificate pkey : Setting
  admin_name admin_nick admin_email : Setting
  net_prefix key1 key2 key3 : Setting
  ping_freq timeout : Setting
  standard_port standard_max_hangup_clients standard_ip : Setting
  secure_port secure_max_hangup_clients secure_ip : Setting
  chanlimit motd_path : Setting

-- The groups that are looked up: `serverinfo`, its groups `admin`, `cloak` and `timeouts`, the groups
-- `standard` and `secure` of `listen.sockets`, `channels`, and `files`.
pub data Group : Type 0 where
  serverinfo admin cloak timeouts standard secure channels files : Group

-- What libconfig finds in a file that it could read. `config_lookup` of a group that is missing is
-- `NULL`; in a group that is there, a setting that is missing, or of another type, is not found.
pub record ConfigFile : Type 0 where
  pub has_group : Group → Bool
  pub lookup_int : Setting → Option ℤ
  pub lookup_string : Setting → Option (List ℕ)
  pub lookup_float : Setting → Option ℕ

-- A field is `none` if it was not written.
pub record SocketInfo : Type 0 where
  pub ip : Option (List ℕ)
  pub port : Option ℤ
  pub ssl : Bool
  pub max_hangup_clients : Option ℤ

pub record AdminInfo : Type 0 where
  pub name : Option (List ℕ)
  pub nick : Option (List ℕ)
  pub email : Option (List ℕ)

pub record Cloaking : Type 0 where
  pub net_prefix : Option (List ℕ)
  pub keys : List (List ℕ)
  pub keys_length : List ℕ

pub record ServerConfig : Type 0 where
  pub id : Option ℤ
  pub name : Option (List ℕ)
  pub description : Option (List ℕ)
  pub net_name : Option (List ℕ)
  pub chanlimit : Option ℤ
  pub admin : AdminInfo
  pub socket_standard : SocketInfo
  pub socket_secure : SocketInfo
  pub cloaking : Cloaking
  pub certificate_path : Option (List ℕ)
  pub private_key_path : Option (List ℕ)
  pub ping_freq : Option ℕ
  pub timeout : Option ℕ
  pub motd : Option (List (List ℕ))

-- The groups of `load_server_info`, in its order; it looks for settings in each, also in `NULL`.
unfoldable pub has_groups : ConfigFile → Bool
has_groups cfg =
    cfg.has_group Group.serverinfo
    && cfg.has_group Group.admin
    && cfg.has_group Group.cloak
    && cfg.has_group Group.timeouts
    && cfg.has_group Group.standard
    && cfg.has_group Group.secure
    && cfg.has_group Group.channels

-- The path of the message of the day; `none` is a use of a group or of a path that is not there.
abbrev pub found_path : ConfigFile → Option (List ℕ)
found_path cfg = if cfg.has_group Group.files then cfg.lookup_string Setting.motd_path else none

-- `read_motd_file` with its path from the configuration; the path is used once there is memory.
unfoldable pub read_motd :
    (List ℕ → Option (List ℕ)) → ConfigFile → Heap → Option (Option (List (List ℕ)) × Heap)
unfolding read_motd_file
read_motd fopen cfg h = elim (found_path cfg) [
  | none ↦ if (malloc h).0 then none else some (none, (malloc h).1)
  | some path ↦ read_motd_file (fopen path) h
]

-- The `struct server_info` with three keys and their lengths, and the message of the day.
abbrev pub fields : ConfigFile → List ℕ → List ℕ → List ℕ → Option (List (List ℕ)) → ServerConfig
fields cfg k1 k2 k3 motd = record {
  id = cfg.lookup_int Setting.serv_id;
  name = cfg.lookup_string Setting.serv_name;
  description = cfg.lookup_string Setting.serv_desc;
  net_name = cfg.lookup_string Setting.net_name;
  chanlimit = cfg.lookup_int Setting.chanlimit;
  admin = record {
    name = cfg.lookup_string Setting.admin_name;
    nick = cfg.lookup_string Setting.admin_nick;
    email = cfg.lookup_string Setting.admin_email;
  };
  socket_standard = record {
    ip = cfg.lookup_string Setting.standard_ip;
    port = cfg.lookup_int Setting.standard_port;
    ssl = false;
    max_hangup_clients = cfg.lookup_int Setting.standard_max_hangup_clients;
  };
  socket_secure = record {
    ip = cfg.lookup_string Setting.secure_ip;
    port = cfg.lookup_int Setting.secure_port;
    ssl = true;
    max_hangup_clients = cfg.lookup_int Setting.secure_max_hangup_clients;
  };
  cloaking = record {
    net_prefix = cfg.lookup_string Setting.net_prefix;
    keys = k1 ∷ k2 ∷ k3 ∷ [];
    keys_length = length k1 ∷ length k2 ∷ length k3 ∷ [];
  };
  certificate_path = cfg.lookup_string Setting.certificate;
  private_key_path = cfg.lookup_string Setting.pkey;
  ping_freq = cfg.lookup_float Setting.ping_freq;
  timeout = cfg.lookup_float Setting.timeout;
  motd = motd;
}

-- With the configuration file, or `none` if it cannot be read. `none` inside is 1; the outcome
-- `none` is a use of `NULL` for a group, or of a field that was not written: `strlen` of a key, or
-- the path of the message.
unfoldable pub load_server_info :
    (List ℕ → Option (List ℕ)) → Option ConfigFile → Heap → Option (Option ServerConfig × Heap)
unfolding read_motd has_groups
load_server_info fopen none h = some (none, h)
load_server_info fopen (some cfg) h =
    let (got, h1) = malloc h in
    let loaded : Option (Option ServerConfig × Heap) = (do
      k1 ← cfg.lookup_string Setting.key1
      k2 ← cfg.lookup_string Setting.key2
      k3 ← cfg.lookup_string Setting.key3
      read ← read_motd fopen cfg h1
      some (some (fields cfg k1 k2 k3 read.0), read.1)) in
    if got then (if has_groups cfg then loaded else none) else some (none, h1)

abbrev pub get_server_name : ServerConfig → Option (List ℕ)
get_server_name info = info.name

abbrev pub get_server_desc : ServerConfig → Option (List ℕ)
get_server_desc info = info.description

abbrev pub get_std_socket_ip : ServerConfig → Option (List ℕ)
get_std_socket_ip info = info.socket_standard.ip

abbrev pub get_ssl_socket_ip : ServerConfig → Option (List ℕ)
get_ssl_socket_ip info = info.socket_secure.ip

abbrev pub get_std_socket_port : ServerConfig → Option ℤ
get_std_socket_port info = info.socket_standard.port

abbrev pub get_ssl_socket_port : ServerConfig → Option ℤ
get_ssl_socket_port info = info.socket_secure.port

abbrev pub get_std_socket_hangup : ServerConfig → Option ℤ
get_std_socket_hangup info = info.socket_standard.max_hangup_clients

abbrev pub get_ssl_socket_hangup : ServerConfig → Option ℤ
get_ssl_socket_hangup info = info.socket_secure.max_hangup_clients

abbrev pub get_cert_path : ServerConfig → Option (List ℕ)
get_cert_path info = info.certificate_path

abbrev pub get_priv_key_path : ServerConfig → Option (List ℕ)
get_priv_key_path info = info.private_key_path

abbrev pub get_cloak_net_prefix : ServerConfig → Option (List ℕ)
get_cloak_net_prefix info = info.cloaking.net_prefix

abbrev pub cloak_key : ServerConfig → ℕ → List ℕ
cloak_key info i = get_or info.cloaking.keys (i - 1) []

abbrev pub get_cloak_key_length : ServerConfig → ℕ → ℕ
get_cloak_key_length info i = get_or info.cloaking.keys_length (i - 1) 0

abbrev pub get_chanlimit : ServerConfig → Option ℤ
get_chanlimit info = info.chanlimit

abbrev pub get_ping_freq : ServerConfig → Option ℕ
get_ping_freq info = info.ping_freq

abbrev pub get_timeout : ServerConfig → Option ℕ
get_timeout info = info.timeout

abbrev pub get_motd : ServerConfig → Option (List (List ℕ))
get_motd info = info.motd
