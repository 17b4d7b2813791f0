-- ===== src/Add/AutoKinds.antt =====
-- add.go: what each step of AutoAddResource does to the rest of a gossfile.
use goss.Base.{String, ◌≡◌, refl, Bool, true, false, List, if◌then◌else◌}
use goss.ResourceMaps.Lawful.{
  package_map_kind-IsLawful, service_map_kind-IsLawful, user_map_kind-IsLawful,
  group_map_kind-IsLawful, port_map_kind-IsLawful, file_map_kind-IsLawful,
}
use goss.Add.OneMap.{
  with_packages-KeepsSection, with_services-KeepsSection, with_users-KeepsSection,
  with_groups-KeepsSection, with_files-KeepsSection, with_ports-KeepsSection,
}
use goss.Add.Maps.{with_packages, with_services, with_files, with_groups, with_ports, with_users}
use goss.ResourceMaps.Kinds.{
  package_map_kind, service_map_kind, file_map_kind, group_map_kind, port_map_kind, user_map_kind,
}
use goss.ResourceMaps.IfExists.{
  append_service_if_exists, append_package_if_exists, append_user_if_exists, append_file_if_exists,
  append_group_if_exists, append_port_if_exists,
}
use goss.Options.{RuntimeConfig}
use goss.System.Ports.{Connection}
use goss.Add.{Announcement, Session}
use goss.System.{System}
use goss.Base.Maps.{Dict}
use goss.Add.Sections.{KeepsTests, KeepsTests-refl, KeepsTests-trans}
use goss.Add.Labels.{append_sys_resource_if_exists-KeepsLabels}
use goss.Add.Auto.{
  put_found, auto_add_file, auto_add_group, auto_add_package, auto_add_port, auto_add_service,
  auto_add_user,
}
use goss.Errors.{Result, ok, ◌>>=◌, >>=-eq-ok, ok-injective}
use goss.Config.{GossConfig}
use mathlib.Core.Path.{subst}
use goss.ResourceMaps.{MapKind, AddHost}

module _ (host : AddHost) where
  -- A step, wherever it returns a state, keeps the tests of the state it is given.
  abbrev pub Keeps : (Session → Result Session) → Type 0
  Keeps step = (s t : Session) → (step s ≡ ok t) → KeepsTests host s.0 t.0

  pub ok-Keeps : Keeps ok
  ok-Keeps s t e = subst (λ d. KeepsTests host s.0 d.0) (ok-injective e) (KeepsTests-refl host s.0)

  pub >>=-Keeps : (f g : Session → Result Session) → Keeps f → Keeps g → Keeps (λ s. f s >>= g)
  >>=-Keeps f g hf hg s t e =
      let (u, first, rest) = >>=-eq-ok (f s) g e in
      KeepsTests-trans host s.0 u.0 t.0 (hf s u first) (hg u t rest)

  pub if-Keeps :
      (b : Bool) (f g : Session → Result Session)
      → Keeps f
      → Keeps g
      → Keeps (λ s. if b then f s else g s)
  if-Keeps true f g hf hg = hf
  if-Keeps false f g hf hg = hg

  pub put_found-Keeps :
      {R O : Type 0} (kind : MapKind R O) (file_name : String) (announce : Bool) (c : GossConfig)
      (store : Dict R → GossConfig) (printed : List Announcement) (res : R) (o : O) (b : Bool)
      (m : Dict R)
      → KeepsTests host c (store m)
      → KeepsTests host c (put_found kind file_name announce store printed (res, o, b, m)).0
  put_found-Keeps kind file_name announce c store printed res o true m h = h
  put_found-Keeps kind file_name announce c store printed res o false m h = h

  module _ (sys : System) (get_ports : Result (Dict (List Connection))) (file_name : String)
      (config : RuntimeConfig) where
    pub auto_add_file-Keeps :
        (key : String) → Keeps (auto_add_file host sys get_ports file_name config key)
    unfolding auto_add_file append_file_if_exists
    auto_add_file-Keeps key (c, printed) t e =
        let (p, q, put) =
          >>=-eq-ok (append_file_if_exists host sys key c.sections.files)
            (λ p. ok (
              put_found (file_map_kind host) file_name config.announce_to_cli (with_files c) printed
                p))
            e in
        subst (λ d. KeepsTests host c d.0) (ok-injective put)
          (put_found-Keeps (file_map_kind host) file_name config.announce_to_cli c (with_files c)
            printed p.0 p.1 p.2 p.3
            (
              refl,
              refl,
              with_files-KeepsSection host c p.3 (
                  append_sys_resource_if_exists-KeepsLabels (file_map_kind host)
                    (file_map_kind-IsLawful host) (sys.new_file key) c.sections.files p.3 p.0 p.1
                    p.2 q),
            ))

    pub auto_add_group-Keeps :
        (key : String) → Keeps (auto_add_group host sys get_ports file_name config key)
    unfolding auto_add_group append_group_if_exists
    auto_add_group-Keeps key (c, printed) t e =
        let (p, q, put) =
          >>=-eq-ok (append_group_if_exists host sys key c.sections.groups)
            (λ p. ok (
              put_found (group_map_kind host) file_name config.announce_to_cli (with_groups c)
                printed p))
            e in
        subst (λ d. KeepsTests host c d.0) (ok-injective put)
          (put_found-Keeps (group_map_kind host) file_name config.announce_to_cli c (with_groups c)
            printed p.0 p.1 p.2 p.3
            (
              refl,
              refl,
              with_groups-KeepsSection host c p.3 (
                  append_sys_resource_if_exists-KeepsLabels (group_map_kind host)
                    (group_map_kind-IsLawful host) (sys.new_group key) c.sections.groups p.3 p.0 p.1
                    p.2 q),
            ))

    pub auto_add_package-Keeps :
        (key : String) → Keeps (auto_add_package host sys get_ports file_name config key)
    unfolding auto_add_package append_package_if_exists
    auto_add_package-Keeps key (c, printed) t e =
        let (p, q, put) =
          >>=-eq-ok (append_package_if_exists host sys key c.sections.packages)
            (λ p. ok (
              put_found (package_map_kind host) file_name config.announce_to_cli (with_packages c)
                printed p))
            e in
        subst (λ d. KeepsTests host c d.0) (ok-injective put)
          (put_found-Keeps (package_map_kind host) file_name config.announce_to_cli c
            (with_packages c) printed p.0 p.1 p.2 p.3
            (
              refl,
              refl,
              with_packages-KeepsSection host c p.3 (
                  append_sys_resource_if_exists-KeepsLabels (package_map_kind host)
                    (package_map_kind-IsLawful host) (sys.new_package key) c.sections.packages p.3
                    p.0 p.1 p.2 q),
            ))

    pub auto_add_port-Keeps :
        (key : String) → Keeps (auto_add_port host sys get_ports file_name config key)
    unfolding auto_add_port append_port_if_exists
    auto_add_port-Keeps key (c, printed) t e =
        let (p, q, put) =
          >>=-eq-ok (append_port_if_exists host sys key c.sections.ports)
            (λ p. ok (
              put_found (port_map_kind host) file_name config.announce_to_cli (with_ports c) printed
                p))
            e in
        subst (λ d. KeepsTests host c d.0) (ok-injective put)
          (put_found-Keeps (port_map_kind host) file_name config.announce_to_cli c (with_ports c)
            printed p.0 p.1 p.2 p.3
            (
              refl,
              refl,
              with_ports-KeepsSection host c p.3 (
                  append_sys_resource_if_exists-KeepsLabels (port_map_kind host)
                    (port_map_kind-IsLawful host) (sys.new_port key) c.sections.ports p.3 p.0 p.1
                    p.2 q),
            ))

    pub auto_add_service-Keeps :
        (key : String) → Keeps (auto_add_service host sys get_ports file_name config key)
    unfolding auto_add_service append_service_if_exists
    auto_add_service-Keeps key (c, printed) t e =
        let (p, q, put) =
          >>=-eq-ok (append_service_if_exists host sys key c.sections.services)
            (λ p. ok (
              put_found (service_map_kind host) file_name config.announce_to_cli (with_services c)
                printed p))
            e in
        subst (λ d. KeepsTests host c d.0) (ok-injective put)
          (put_found-Keeps (service_map_kind host) file_name config.announce_to_cli c
            (with_services c) printed p.0 p.1 p.2 p.3
            (
              refl,
              refl,
              with_services-KeepsSection host c p.3 (
                  append_sys_resource_if_exists-KeepsLabels (service_map_kind host)
                    (service_map_kind-IsLawful host) (sys.new_service key) c.sections.services p.3
                    p.0 p.1 p.2 q),
            ))

    pub auto_add_user-Keeps :
        (key : String) → Keeps (auto_add_user host sys get_ports file_name config key)
    unfolding auto_add_user append_user_if_exists
    auto_add_user-Keeps key (c, printed) t e =
        let (p, q, put) =
          >>=-eq-ok (append_user_if_exists host sys key c.sections.users)
            (λ p. ok (
              put_found (user_map_kind host) file_name config.announce_to_cli (with_users c) printed
                p))
            e in
        subst (λ d. KeepsTests host c d.0) (ok-injective put)
          (put_found-Keeps (user_map_kind host) file_name config.announce_to_cli c (with_users c)
            printed p.0 p.1 p.2 p.3
            (
              refl,
              refl,
              with_users-KeepsSection host c p.3 (
                  append_sys_resource_if_exists-KeepsLabels (user_map_kind host)
                    (user_map_kind-IsLawful host) (sys.new_user key) c.sections.users p.3 p.0 p.1
                    p.2 q),
            ))
