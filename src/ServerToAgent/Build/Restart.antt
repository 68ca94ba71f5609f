-- ===== src/ServerToAgent/Build/Restart.antt =====
-- The restart command in the message for an agent.
use opampcommander.Base.{
  ◌≡◌, ap, ◌∙◌, Bool, true, none, some, arith, ltb, if◌then◌else◌, nat_eq, string_eq,
}
use opampcommander.Agent.Types.{Agent}
use opampcommander.Agent.Health.{Time, ComponentHealth, start_time}
use opampcommander.Agent.Health.{Time, ComponentHealth, start_time}
use opampcommander.Agent.Methods.{should_be_restarted, is_restart_supported, set_restart_required}
use opampcommander.Agent.Reports.{report_component_health}
use opampcommander.ServerToAgent.Message.{Message, Protocol, Library}
use opampcommander.ServerToAgent.Build.{message, build}
use opampcommander.ServerToAgent.Build.Delivery.{Lookup, build-message}

restart_due_after :
    (t : Time) (a : Agent) (health : ComponentHealth)
    → is_restart_supported a ≡ true
    → should_be_restarted (report_component_health (some health) (set_restart_required t a).0)
      ≡ ltb (start_time health) t
unfolding should_be_restarted set_restart_required report_component_health
restart_due_after t a health s = ground (arith, s)

-- A restart that was required at `t` of an agent that can be restarted is commanded until the
-- agent reports that it started at `t` or later: the command stands in a message exactly while the
-- reported start lies before `t`.
pub command-set_restart_required :
    (proto : Protocol) (l : Library) (get : Lookup) (t : Time) (a : Agent)
    (health : ComponentHealth) (m : Message)
    → is_restart_supported a ≡ true
    → build proto l get (report_component_health (some health) (set_restart_required t a).0)
      ≡ some m
    → m.command ≡ (if ltb (start_time health) t then some proto.restart else none)
unfolding message
command-set_restart_required proto l get t a health m s e =
    let (packages, offers, q, made) = build-message proto l get _ m e in
    ap (λ (x : Message). x.command) made
    ∙ ap (λ (b : Bool). if b then some proto.restart else none) (restart_due_after t a health s)
