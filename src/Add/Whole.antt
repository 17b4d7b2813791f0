-- ===== src/Add/Whole.antt =====
-- add.go: what AddResources and AutoAddResources write.
use goss.Base.{String, ◌≡◌, ap, ◌∙◌, List, [], ◌∷◌}
use goss.Add.{Session, Announcement, add_resource}
use goss.Add.Auto.{auto_add_resource}
use goss.Add.Files.{
  AddMachine, add_keys, add_resources, auto_add_resources, read_or_new, set_log_level,
  write_session,
}
use goss.Add.Frame.{add_resource-KeepsTests}
use goss.Add.AutoFrame.{auto_add_resource-KeepsTests}
use goss.Add.AutoKinds.{Keeps, ok-Keeps, >>=-Keeps}
use goss.Add.Sections.{KeepsTests}
use goss.Store.{StoreFormat, get_store_format_from_file_name}
use goss.Store.Write.{Written, write_json}
use goss.Config.{GossConfig}
use goss.Options.{RuntimeConfig}
use goss.Errors.{Result, ok, ◌>>=◌, >>=-eq-ok, ok-injective}

module _ (machine : AddMachine) where
  add_keys-Keeps :
      (add : String → Session → Result Session) (keys : List String)
      → ((key : String) → Keeps machine.resources (add key))
      → Keeps machine.resources (add_keys add keys)
  unfolding add_keys
  add_keys-Keeps add [] keeps = ok-Keeps machine.resources
  add_keys-Keeps add (key ∷ keys) keeps =
      >>=-Keeps machine.resources (add key) (add_keys add keys) (keeps key)
        (add_keys-Keeps add keys keeps)

  -- The gossfile is read, or begun where there is none, and `written` is what WriteJSON does with a
  -- configuration that keeps the tests of it.
  abbrev pub WritesMore : (file_name : String) → Written → Type 0
  WritesMore file_name written =
      (format : StoreFormat) × (c : GossConfig) × (d : GossConfig)
      × (get_store_format_from_file_name machine.store file_name ≡ ok format)
      × (read_or_new machine format file_name ≡ ok c)
      × KeepsTests machine.resources c d
      × (write_json machine.writer format file_name d ≡ ok written)

  -- The call of AddResource for a key
  abbrev adds :
      (file_name resource_name : String) → RuntimeConfig → String → Session → Result Session
  adds file_name resource_name config key =
      add_resource machine.resources (machine.new_system config.package_manager) file_name
        resource_name key config

  -- The part that AddResources and AutoAddResources share, behind the setting of the log level.
  abbrev add_all :
      (String → Session → Result Session)
      → (file_name : String) → List String
      → Result (Written × List Announcement)
  add_all add file_name keys = do
    format ← get_store_format_from_file_name machine.store file_name
    c ← read_or_new machine format file_name
    s ← add_keys add keys (c, [])
    write_session machine format file_name s

  add_all-WritesMore :
      (add : String → Session → Result Session) (file_name : String) (keys : List String)
      (r : Written × List Announcement)
      → ((key : String) → Keeps machine.resources (add key))
      → (add_all add file_name keys ≡ ok r)
      → WritesMore file_name r.0
  add_all-WritesMore add file_name keys r keeps e =
      let (format, known, e1) =
        >>=-eq-ok (get_store_format_from_file_name machine.store file_name)
          (λ format. read_or_new machine format file_name >>= λ c.
            add_keys add keys (c, []) >>= write_session machine format file_name)
          e in
      let (c, got, e2) =
        >>=-eq-ok (read_or_new machine format file_name)
          (λ c. add_keys add keys (c, []) >>= write_session machine format file_name) e1 in
      let (s, added, e3) =
        >>=-eq-ok (add_keys add keys (c, [])) (write_session machine format file_name) e2 in
      let (written, wrote', e4) =
        >>=-eq-ok (write_json machine.writer format file_name s.0) (λ w. ok (w, s.1)) e3 in
      (
        format,
        c,
        s.0,
        known,
        got,
        add_keys-Keeps add keys keeps (c, []) s added,
        wrote' ∙ ap (λ p. ok p.0) (ok-injective e4),
      )

  -- When `goss add` ends without an error, what it did to the file is what writing a configuration
  -- does that has every key of the file as it was read, in each map of tests that it may add to and
  -- among the included gossfiles, with the title and the meta data that stood there, and the same map
  -- of matching tests and the same discovery section. The other attributes of a test may be written
  -- anew. A file that is not there counts as an empty one.
  pub add_resources-WritesMore :
      (file_name resource_name : String) (keys : List String) (config : RuntimeConfig)
      (r : Written × List Announcement)
      → (add_resources machine file_name resource_name keys config ≡ ok r)
      → WritesMore file_name r.0
  unfolding add_resources
  add_resources-WritesMore file_name resource_name keys config r e =
      let (level, set, e') =
        >>=-eq-ok (set_log_level machine.to_upper config)
          (λ level. add_all (adds file_name resource_name config) file_name keys) e in
      add_all-WritesMore (adds file_name resource_name config) file_name keys r
        (λ key s t q.
          add_resource-KeepsTests machine.resources (machine.new_system config.package_manager)
            file_name resource_name key config s.0 s.1 t q)
        e'

  -- Whatever `goss autoadd` finds under the names: when it ends without an error, what it did to the
  -- file is what writing a configuration does that has every key of the file as it was read, in each
  -- map of tests that it may add to and among the included gossfiles, with the title and the meta data
  -- that stood there, and the same map of matching tests and the same discovery section. The other
  -- attributes of a test may be written anew. A file that is not there counts as an empty one.
  pub auto_add_resources-WritesMore :
      (file_name : String) (keys : List String) (config : RuntimeConfig)
      (r : Written × List Announcement)
      → (auto_add_resources machine file_name keys config ≡ ok r)
      → WritesMore file_name r.0
  unfolding auto_add_resources
  auto_add_resources-WritesMore file_name keys config r e =
      add_all-WritesMore
        (auto_add_resource machine.resources (machine.new_system config.package_manager)
          machine.get_ports file_name config)
        file_name keys r
        (λ key s t q.
          auto_add_resource-KeepsTests machine.resources (machine.new_system config.package_manager)
            machine.get_ports file_name config key s t q)
        e
