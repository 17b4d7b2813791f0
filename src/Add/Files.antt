-- ===== src/Add/Files.antt =====
-- add.go and logs.go: AddResources and AutoAddResources, from reading the gossfile to writing it.
use goss.Base.{String, Bool, none, List, [], ◌∷◌, ◌==◌, if◌then◌else◌, any_of}
use goss.System.Ports.{Connection}
use goss.Base.Maps.{Dict}
use goss.Options.{RuntimeConfig, RuntimeConfig, RuntimeConfig}
use goss.System.{System}
use goss.Add.{Session, Announcement, add_resource}
use goss.Add.Auto.{auto_add_resource}
use goss.Errors.{Result, ok, err, ◌>>=◌, bad_log_level}
use goss.Store.Write.{Writer, Written, write_json}
use goss.Store.{Host, read_json, get_store_format_from_file_name, StoreFormat}
use goss.Config.{GossConfig, new_goss_config}
use goss.ResourceMaps.{AddHost}

-- The machine around add.go: whether os.Stat finds a file, system.New, system.GetPorts and
-- strings.ToUpper.
pub record AddMachine : Type 0 where
  pub store : Host
  pub writer : Writer
  pub resources : AddHost
  pub is_file : String → Bool
  pub new_system : (package_manager : String) → System
  pub get_ports : Result (Dict (List Connection))
  pub to_upper : String → String

abbrev log_levels : List String
log_levels = "TRACE" ∷ "DEBUG" ∷ "INFO" ∷ "WARN" ∷ "ERROR" ∷ []

-- setLogLevel: the level that it sets
unfoldable pub set_log_level : (to_upper : String → String) → RuntimeConfig → Result String
set_log_level to_upper config =
    if any_of (λ l. l == to_upper config.log_level) log_levels
    then ok (to_upper config.log_level)
    else err (bad_log_level config.log_level)

-- The loop over the keys
unfoldable pub add_keys :
    (String → Session → Result Session) → List String → Session → Result Session
add_keys add [] s = ok s
add_keys add (key ∷ keys) s = add key s >>= add_keys add keys

module _ (machine : AddMachine) where
  -- The gossfile that is added to, or a new one. No template filter is set.
  unfoldable pub read_or_new : StoreFormat → String → Result GossConfig
  read_or_new format file_name =
      if machine.is_file file_name
      then read_json machine.store none format file_name
      else ok new_goss_config

  -- What is written, and what is printed
  abbrev pub write_session : StoreFormat → String → Session → Result (Written × List Announcement)
  write_session format file_name (c, printed) = do
    written ← write_json machine.writer format file_name c
    ok (written, printed)

  unfoldable pub add_resources :
      (file_name resource_name : String)
      → (keys : List String) → RuntimeConfig
      → Result (Written × List Announcement)
  add_resources file_name resource_name keys config = do
    level ← set_log_level machine.to_upper config
    format ← get_store_format_from_file_name machine.store file_name
    c ← read_or_new format file_name
    s ←
        add_keys
          (λ key.
            add_resource machine.resources (machine.new_system config.package_manager) file_name
              resource_name key config)
          keys (c, [])
    write_session format file_name s

  unfoldable pub auto_add_resources :
      (file_name : String)
      → (keys : List String) → RuntimeConfig
      → Result (Written × List Announcement)
  auto_add_resources file_name keys config = do
    format ← get_store_format_from_file_name machine.store file_name
    c ← read_or_new format file_name
    s ←
        add_keys
          (auto_add_resource machine.resources (machine.new_system config.package_manager)
            machine.get_ports file_name config)
          keys (c, [])
    write_session format file_name s
