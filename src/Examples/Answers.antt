-- ===== src/Examples/Answers.antt =====
-- The theorems on the answers of the OpAMP service.
use opampcommander.Base.{
  String, ◌≡◌, refl, sym, ◌∙◌, ◌↔◌, true, false, Option, none, some, List, [], ◌∷◌, nat_eq,
  string_eq, lookup, elems, subst, ap, resource_not_exist, Result, ok, err,
}
use opampcommander.Agent.Types.{Uuid, Agent}
use opampcommander.Store.Agents.{new_agent_repository, get_agent as load_agent, put_agent}
use opampcommander.AgentService.Coherence.{Coherent}
use opampcommander.OpAmp.Proto.{AgentToServer}
use opampcommander.OpAmp.ToDomain.{to_map}
use opampcommander.OpAmp.State.{State, Response}
use opampcommander.OpAmp.Message.{on_message, is_heartbeat_only}
use opampcommander.OpAmp.Claims.{Claimed}
use opampcommander.Base.MapLaws.{IsMap}
use opampcommander.Agent.Methods.{new_agent}
use opampcommander.Agent.Capabilities.{has_accepts_packages}
use opampcommander.OpAmp.Packages.{on_message-none}
use opampcommander.OpAmp.Identity.{HasMap, Disputed, on_message-renewal_iff}
use opampcommander.OpAmp.Answer.{Stored, on_message-Stored}
use opampcommander.Examples.Caching.{Entries, entries_cache, service, nothing_held}
use opampcommander.AgentService.{get_agent}
use opampcommander.Agent.Clone.{clone_metadata, clone_string_map}
use opampcommander.Examples.Service.{
  started, readings, report_of_7, server_service, first_id, started-Coherent,
}

nothing_stored :
    (a : Agent) → load_agent 7 new_agent_repository ≡ ok a → a.metadata.instance_uid ≡ 7
unfolding load_agent new_agent_repository
nothing_stored a e =
    absurd (let f : ◌≡◌ {A = Result Agent} (err resource_not_exist) (ok a) = e in cc f)

unclaimed_7 : ¬ Claimed server_service report_of_7 new_agent_repository
unfolding load_agent new_agent_repository
unclaimed_7 h =
    let f : ◌≡◌ {A = Result Agent} (err resource_not_exist) (ok h.owner) = h.stored in cc f

report_is_more : is_heartbeat_only report_of_7 ≡ false
unfolding is_heartbeat_only
report_is_more = refl

on_message-Stored_example :
    Stored server_service readings report_of_7
      (on_message server_service readings none first_id report_of_7 started).0
on_message-Stored_example =
    on_message-Stored server_service readings none first_id report_of_7 started started-Coherent
      nothing_stored unclaimed_7 report_is_more

-- Another agent than the one that reports stands under the UID.
abbrev other_agent : Agent
unfolding new_agent
other_agent = record (new_agent 1 1 7 []) {
  metadata = record (new_agent 1 1 7 []).metadata {
    description = record {
      identifying_attributes = some (("service.name", "agent") ∷ []);
      non_identifying_attributes = none;
    };
  };
}

abbrev owned : State Entries
owned = record started {
  agents = record { cache = []; store = (put_agent other_agent new_agent_repository).0 };
}

owned-Coherent : Coherent entries_cache service owned.agents
owned-Coherent q j v e =
    absurd (let e' : ◌≡◌ {A = Option Agent} none (some v) = sym (nothing_held j) ∙ e in cc e')

stored_attributes : Result Agent → List (String × String)
stored_attributes (ok a) = elems a.metadata.description.identifying_attributes
stored_attributes (err e) = []

owned_attributes :
    stored_attributes (load_agent 7 owned.agents.store) ≡ (("service.name", "agent") ∷ [])
unfolding load_agent put_agent new_agent_repository stored_attributes other_agent clone_metadata
    clone_string_map
owned_attributes = refl

owned-HasMap : HasMap server_service report_of_7 owned.agents.store
unfolding lookup stored_attributes
owned-HasMap a e =
    let is : (("service.name", "agent") ∷ [])
        ≡ elems a.metadata.description.identifying_attributes =
      sym owned_attributes ∙ ap stored_attributes e in
    subst IsMap is (refl, tt)

redirected_to_99 :
    (on_message server_service readings none first_id report_of_7 owned).1
    ≡ some (Response.renewal 7 99)
unfolding on_message get_agent service first_id entries_cache load_agent put_agent
    new_agent_repository other_agent to_map clone_metadata clone_string_map
redirected_to_99 = refl

on_message-renewal_iff_example :
    ((on_message server_service readings none first_id report_of_7 owned).1
        ≡ some (Response.renewal 7 99)
      ↔ Disputed server_service report_of_7 owned.agents.store)
    × ((old new : Uuid)
        → (on_message server_service readings none first_id report_of_7 owned).1
          ≡ some (Response.renewal old new)
        → (old ≡ 7) × (new ≡ 99))
on_message-renewal_iff_example =
    on_message-renewal_iff server_service readings none first_id report_of_7 owned owned-Coherent
      owned-HasMap

abbrev packages_of_7 : AgentToServer
packages_of_7 = record report_of_7 { capabilities = 8 }

accepts_packages : has_accepts_packages 8 ≡ true
unfolding has_accepts_packages
accepts_packages = refl

nothing_listed :
    (a : Agent) → load_agent 7 new_agent_repository ≡ ok a → a.spec.packages_available ≡ none
unfolding load_agent new_agent_repository
nothing_listed a e =
    absurd (let f : ◌≡◌ {A = Result Agent} (err resource_not_exist) (ok a) = e in cc f)

unclaimed_packages : ¬ Claimed server_service packages_of_7 new_agent_repository
unfolding load_agent new_agent_repository
unclaimed_packages h =
    let f : ◌≡◌ {A = Result Agent} (err resource_not_exist) (ok h.owner) = h.stored in cc f

on_message-none_example :
    (on_message server_service readings none first_id packages_of_7 started).1 ≡ none
on_message-none_example =
    on_message-none server_service readings none first_id packages_of_7 started started-Coherent
      nothing_listed unclaimed_packages accepts_packages
