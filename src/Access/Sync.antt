-- ===== src/Access/Sync.antt =====
-- service/rbac.go: the policies handed to the enforcer. The enforcer, a library's, is a parameter
-- with its state.
use opampcommander.Base.{
  String, Bool, Option, none, some, List, [], ◌∷◌, nat_eq, string_eq, Error, Result, ok, err,
}
use opampcommander.Agent.Types.{Uuid}
use opampcommander.Access.Rbac.{RbacService, NamedPolicy, GroupingPolicy, collect_policies}

-- rbacEnforcerPort
pub record Enforcer (E : Type 0) : Type 0 where
  pub check : String → String → String → String → E → Result Bool
  pub clear_policy : E → E
  pub build_role_links : E → E × Option Error
  pub add_named_policy : NamedPolicy → E → E × Option Error
  pub add_grouping_policy : GroupingPolicy → E → E × Option Error
  pub save_policy : E → E × Option Error

module _ (svc : RbacService) {E : Type 0} (port : Enforcer E) where
  unfoldable pub check_permission : Uuid → String → String → String → E → Result Bool
  check_permission uid namespace resource action e =
      port.check (svc.uuid_text uid) namespace resource action e

  -- The next call, unless the last one failed.
  after : E × Option Error → (E → E × Option Error) → E × Option Error
  after (e, none) next = next e
  after (e, some x) next = (e, some x)

  add_named_policies : List NamedPolicy → E → E × Option Error
  unfolding after
  add_named_policies [] e = (e, none)
  add_named_policies (p ∷ ps) e = after (port.add_named_policy p e) (add_named_policies ps)

  add_grouping_policies : List GroupingPolicy → E → E × Option Error
  unfolding after
  add_grouping_policies [] e = (e, none)
  add_grouping_policies (g ∷ gs) e = after (port.add_grouping_policy g e) (add_grouping_policies gs)

  save_unless_empty : List NamedPolicy → List GroupingPolicy → E → E × Option Error
  save_unless_empty [] [] e = (e, none)
  save_unless_empty [] (g ∷ gs) e = port.save_policy e
  save_unless_empty (p ∷ ps) gs e = port.save_policy e

  applied : E → Result (List NamedPolicy × List GroupingPolicy) → E × Option Error
  unfolding add_named_policies add_grouping_policies save_unless_empty
  applied e (err x) = (e, some x)
  applied e (ok (ps, gs)) = after (port.build_role_links (port.clear_policy e)) λ linked.
      after (add_named_policies ps linked)
        λ named. after (add_grouping_policies gs named) (save_unless_empty ps gs)

  unfoldable pub sync_policies : E → E × Option Error
  unfolding applied collect_policies
  sync_policies e = applied e (collect_policies svc)
