-- ===== src/Discovery/Repository.antt =====
-- host.go and container.go of the in-memory persistence: the repositories of hosts and containers.
use opampcommander.Base.{
  ℕ, ◌+◌, ◌%◌, String, true, false, Option, none, some, nat_eq, string_eq, Error, Result, ok, err,
}
use opampcommander.Store.Ops.{
  Store, Kind, ListOptions, ListResponse, u64_mod, get, cas_put_or_create, list,
}
use opampcommander.Discovery.{Host, Container}

-- The two aggregates differ only in where their key and version stand.
pub record Versioned (V : Type 0) : Type 0 where
  pub id : V → String
  pub version : V → ℕ
  pub with_version : ℕ → V → V

-- cloneHost and cloneContainer: `maps.Clone` and `slices.Clone` keep a nil value and every entry.
abbrev pub cloned_kind : {V : Type 0} → Kind V
cloned_kind = record { clone = λ v. v; deleted_at = none }

abbrev pub hosts : Versioned Host
hosts = record {
  id = λ h. h.metadata.id;
  version = λ h. h.metadata.resource_version;
  with_version = λ n h. record h { metadata = record h.metadata { resource_version = n } };
}

abbrev pub containers : Versioned Container
containers = record {
  id = λ c. c.metadata.id;
  version = λ c. c.metadata.resource_version;
  with_version = λ n c. record c { metadata = record c.metadata { resource_version = n } };
}

module _ {V : Type 0} (t : Versioned V) where
  unfoldable pub get_discovered : String → Store String V → Result V
  unfolding get
  get_discovered id s = get cloned_kind s id false

  returned : V → ℕ → Store String V × Option Error → Store String V × Result V
  returned v next (s, none) = (s, ok (t.with_version next v))
  returned v next (s, some e) = (s, err e)

  -- A version of 0 writes whatever is stored.
  unfoldable pub put_discovered : V → Store String V → Store String V × Result V
  unfolding cas_put_or_create returned
  put_discovered v s =
      let expected = t.version v in
      let next = (expected + 1) % u64_mod in
      returned v next
        (cas_put_or_create cloned_kind (t.id v) (t.with_version next v) expected t.version s)

  unfoldable pub list_discovered : ListOptions → Store String V → Result (ListResponse V)
  unfolding list
  list_discovered options s = list cloned_kind options (λ v. true) s
