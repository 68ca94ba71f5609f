-- ===== src/ServerToAgent/Build/Packages.antt =====
-- Which packages an agent is offered.
use opampcommander.Base.{
  String, ◌≡◌, refl, ◌∙◌, Bool, true, false, Option, none, some, List, [], ◌∷◌, arith, eq_iff,
  if◌then◌else◌, ◌==◌, nat_eq, string_eq, Assoc, lookup, lookup-insert, Result, ok, err,
}
use opampcommander.Base.MapLaws.{or_else-none, or_else}
use opampcommander.ServerToAgent.Message.{PackageAvailable, AgentPackage, Protocol, Library}
use opampcommander.ServerToAgent.Build.{resolve_available_package, offer_package, offer_packages}

abbrev pub listed : String → List String → Bool
listed name [] = false
listed name (n ∷ ns) = if n == name then true else listed name ns

abbrev value_of : Result PackageAvailable → Option PackageAvailable
value_of (ok pkg) = some pkg
value_of (err e) = none

module _ (proto : Protocol) (l : Library) (get : String → String → Result AgentPackage)
    (namespace : String) where
  -- The package that a name resolves to.
  abbrev pub resolved_package : String → Option PackageAvailable
  resolved_package name = value_of (resolve_available_package proto l get namespace name)

  lookup-offer_package :
      (name : String) (r : Result PackageAvailable) (out : Assoc PackageAvailable) (k : String)
      → lookup k (offer_package proto l get name r out)
        ≡ (if name == k then or_else (value_of r) (lookup k out) else lookup k out)
  unfolding offer_package
  lookup-offer_package name (ok pkg) out k = lookup-insert name k pkg out
  lookup-offer_package name (err e) out k = ground arith

  -- An offer from a list of names.
  offered_from : List String → Option PackageAvailable → String → Option PackageAvailable
  offered_from names old k = if listed k names then or_else (resolved_package k) old else old

  or_else_twice : (x y : Option PackageAvailable) → or_else x (or_else x y) ≡ or_else x y
  or_else_twice none y = refl
  or_else_twice (some x) y = refl

  lookup-offer_packages_from :
      (names : List String) (out : Assoc PackageAvailable) (k : String)
      → lookup k (offer_packages proto l get namespace names out)
        ≡ offered_from names (lookup k out) k
  unfolding offer_packages offered_from
  lookup-offer_packages_from [] out k = refl
  lookup-offer_packages_from (n ∷ names) out k =
      let r = resolve_available_package proto l get namespace n in
      let next = offer_package proto l get n r out in
      ground (
        arith,
        lookup-offer_packages_from names next k,
        lookup-offer_package n r out k,
        eq_iff n k,
        or_else_twice (resolved_package k) (lookup k out),
      )

  -- The packages that are offered are those that are named in the agent's spec and resolve, each
  -- as it resolves: one that does not resolve keeps none of the others back.
  pub lookup-offer_packages :
      (names : List String) (k : String)
      → lookup k (offer_packages proto l get namespace names [])
        ≡ (if listed k names then resolved_package k else none)
  unfolding lookup offered_from
  lookup-offer_packages names k =
      lookup-offer_packages_from names [] k ∙ ground (arith, or_else-none (resolved_package k))
