-- ===== src/ResourceMaps/Lawful.antt =====
-- resource/*.go: the titles and meta data of every kind of test are fields of their own, so that
-- setting them changes neither each other nor the ID. The map types rely on it.
use goss.Checks.{display_id}
use goss.ResourceMaps.Kinds.{
  package_map_kind, service_map_kind, file_map_kind, http_map_kind, gossfile_map_kind,
  user_map_kind, group_map_kind, kernel_param_map_kind, port_map_kind, mount_map_kind,
  addr_map_kind, command_map_kind, dns_map_kind, interface_map_kind, process_map_kind,
  registry_map_kind,
}
use goss.Base.{String, ◌≡◌, refl}
use goss.ResourceMaps.{MapKind, AddHost}
use goss.Value.{Fields}

pub record IsLawful {R O : Type 0} (kind : MapKind R O) : Type 0 where
  pub title-relabel : (t : String) (m : Fields) (r : R) → kind.title (kind.relabel t m r) ≡ t
  pub meta-relabel : (t : String) (m : Fields) (r : R) → kind.meta (kind.relabel t m r) ≡ m
  pub id-relabel : (t : String) (m : Fields) (r : R) → kind.id (kind.relabel t m r) ≡ kind.id r

module _ (host : AddHost) where
  pub addr_map_kind-IsLawful : IsLawful (addr_map_kind host)
  unfolding addr_map_kind display_id
  addr_map_kind-IsLawful = record {
    title-relabel = λ t m r. refl;
    meta-relabel = λ t m r. refl;
    id-relabel = λ t m r. refl;
  }

  pub command_map_kind-IsLawful : IsLawful (command_map_kind host)
  unfolding command_map_kind display_id
  command_map_kind-IsLawful = record {
    title-relabel = λ t m r. refl;
    meta-relabel = λ t m r. refl;
    id-relabel = λ t m r. refl;
  }

  pub dns_map_kind-IsLawful : IsLawful (dns_map_kind host)
  unfolding dns_map_kind display_id
  dns_map_kind-IsLawful = record {
    title-relabel = λ t m r. refl;
    meta-relabel = λ t m r. refl;
    id-relabel = λ t m r. refl;
  }

  pub file_map_kind-IsLawful : IsLawful (file_map_kind host)
  unfolding file_map_kind display_id
  file_map_kind-IsLawful = record {
    title-relabel = λ t m r. refl;
    meta-relabel = λ t m r. refl;
    id-relabel = λ t m r. refl;
  }

  pub gossfile_map_kind-IsLawful : IsLawful (gossfile_map_kind host)
  unfolding gossfile_map_kind display_id
  gossfile_map_kind-IsLawful = record {
    title-relabel = λ t m r. refl;
    meta-relabel = λ t m r. refl;
    id-relabel = λ t m r. refl;
  }

  pub group_map_kind-IsLawful : IsLawful (group_map_kind host)
  unfolding group_map_kind display_id
  group_map_kind-IsLawful = record {
    title-relabel = λ t m r. refl;
    meta-relabel = λ t m r. refl;
    id-relabel = λ t m r. refl;
  }

  pub package_map_kind-IsLawful : IsLawful (package_map_kind host)
  unfolding package_map_kind display_id
  package_map_kind-IsLawful = record {
    title-relabel = λ t m r. refl;
    meta-relabel = λ t m r. refl;
    id-relabel = λ t m r. refl;
  }

  pub port_map_kind-IsLawful : IsLawful (port_map_kind host)
  unfolding port_map_kind display_id
  port_map_kind-IsLawful = record {
    title-relabel = λ t m r. refl;
    meta-relabel = λ t m r. refl;
    id-relabel = λ t m r. refl;
  }

  pub process_map_kind-IsLawful : IsLawful (process_map_kind host)
  unfolding process_map_kind display_id
  process_map_kind-IsLawful = record {
    title-relabel = λ t m r. refl;
    meta-relabel = λ t m r. refl;
    id-relabel = λ t m r. refl;
  }

  pub service_map_kind-IsLawful : IsLawful (service_map_kind host)
  unfolding service_map_kind display_id
  service_map_kind-IsLawful = record {
    title-relabel = λ t m r. refl;
    meta-relabel = λ t m r. refl;
    id-relabel = λ t m r. refl;
  }

  pub user_map_kind-IsLawful : IsLawful (user_map_kind host)
  unfolding user_map_kind display_id
  user_map_kind-IsLawful = record {
    title-relabel = λ t m r. refl;
    meta-relabel = λ t m r. refl;
    id-relabel = λ t m r. refl;
  }

  pub kernel_param_map_kind-IsLawful : IsLawful (kernel_param_map_kind host)
  unfolding kernel_param_map_kind display_id
  kernel_param_map_kind-IsLawful = record {
    title-relabel = λ t m r. refl;
    meta-relabel = λ t m r. refl;
    id-relabel = λ t m r. refl;
  }

  pub mount_map_kind-IsLawful : IsLawful (mount_map_kind host)
  unfolding mount_map_kind display_id
  mount_map_kind-IsLawful = record {
    title-relabel = λ t m r. refl;
    meta-relabel = λ t m r. refl;
    id-relabel = λ t m r. refl;
  }

  pub interface_map_kind-IsLawful : IsLawful (interface_map_kind host)
  unfolding interface_map_kind display_id
  interface_map_kind-IsLawful = record {
    title-relabel = λ t m r. refl;
    meta-relabel = λ t m r. refl;
    id-relabel = λ t m r. refl;
  }

  pub http_map_kind-IsLawful : IsLawful (http_map_kind host)
  unfolding http_map_kind display_id
  http_map_kind-IsLawful = record {
    title-relabel = λ t m r. refl;
    meta-relabel = λ t m r. refl;
    id-relabel = λ t m r. refl;
  }

  pub registry_map_kind-IsLawful : IsLawful (registry_map_kind host)
  unfolding registry_map_kind display_id
  registry_map_kind-IsLawful = record {
    title-relabel = λ t m r. refl;
    meta-relabel = λ t m r. refl;
    id-relabel = λ t m r. refl;
  }
